-- ===== src/Sessions/Claims.antt =====
-- sessionRecorder.ts: the claims that a session records.
use tapes_monorepo.Base.{
  ℕ, String, false, List, inl, inr, Option, none, some, ◌≡◌, arith, eq_iff, if◌then◌else◌, text_eq,
  nat_eq, ◌==◌, ==_refl, Option-cases, is_some, add, get, get-set, get-delete,
}
use tapes_monorepo.Statements.{SessionRecord}
use tapes_monorepo.Sessions.{SessionRecorder, claim_verified, end_grace}

-- What is known of a session's claims, whether it is open or closing.
unfoldable pub claims_of : String → SessionRecorder → Option (List String)
claims_of session_id r =
    let closed = get session_id r.closing in
    let late : Option (List String) = elim closed [
      | none ↦ none
      | some (t, closed_at) ↦ some t.claims
    ] in
    elim r.current [
      | none ↦ late
      | some t ↦ if t.session_id == session_id then some t.claims else late
    ]

-- A verified claim is counted for the session that it names, once, if that session is open or in its
-- grace period; the claims of every other session, and of one that is neither, stay as they are.
pub claim_verified_lem :
    (session_id other_session address : String) (r : SessionRecorder)
    → claims_of other_session (claim_verified session_id address r) ≡ (
        if session_id == other_session
        then elim (claims_of session_id r) [ none ↦ none | some claims ↦ some (add claims address) ]
        else claims_of other_session r)
unfolding claim_verified claims_of
claim_verified_lem session_id other_session address r =
    let same = eq_iff session_id other_session in
    elim (Option-cases r.current) [
      | inl idle ↦ elim (Option-cases (get session_id r.closing)) [
        | inl absent ↦ ground (arith, idle, absent, same)
        | inr (c, found) ↦ ground (
          arith,
          idle,
          found,
          same,
          get-set session_id other_session (record c.0 { claims = add c.0.claims address }, c.1)
              r.closing,
        )
      ]
      | inr (t, busy) ↦ elim (Option-cases (get session_id r.closing)) [
        | inl absent ↦ ground (
          arith,
          busy,
          absent,
          same,
          eq_iff t.session_id session_id,
          eq_iff t.session_id other_session,
        )
        | inr (c, found) ↦ ground (
          arith,
          busy,
          found,
          same,
          eq_iff t.session_id session_id,
          eq_iff t.session_id other_session,
          get-set session_id other_session (record c.0 { claims = add c.0.claims address }, c.1)
              r.closing,
        )
      ]
    ]

-- The record that is signed after the grace period lists the claims that were counted for the
-- session, and it is signed once.
pub end_grace_lem :
    (iso : ℕ → String) (host_key session_id : String) (r : SessionRecorder) (signed : SessionRecord)
    → is_some r.current ≡ false
    → (end_grace iso host_key session_id r).1 ≡ some signed
    → let after = (end_grace iso host_key session_id r).0 in
      (claims_of session_id r ≡ some signed.claims)
      × ((end_grace iso host_key session_id after).1 ≡ none)
unfolding end_grace claims_of
end_grace_lem iso host_key session_id r signed closed done =
    elim (Option-cases (get session_id r.closing)) [
      | inl absent ↦ absurd (ground (arith, absent, done))
      | inr ((t, closed_at), found) ↦ (
        ground (arith, closed, found, done),
        ground (arith, found, ==_refl session_id, get-delete session_id session_id r.closing),
      )
    ]
