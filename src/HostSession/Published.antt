-- ===== src/HostSession/Published.antt =====
-- hostSession.ts: the field of the open session, operation by operation.
use tapes_monorepo.Base.{
  ℕ, String, Bool, true, false, not, ◌&&◌, List, [], ◌∷◌, ◌++◌, inl, inr, none, some, ◌≡◌, refl,
  ◌∙◌, ap, arith, eq_iff, nat_beq_iff, text_eq, nat_eq, ◌==◌, ==_refl, Option-cases, list_eq, any,
  all, includes, get, get-set,
}
use tapes_monorepo.Connections.{SyncConnection, connections}
use tapes_monorepo.Sessions.{
  Tracked, track_connection, track_connections, track, new_session, open_session,
  connections_changed, claim_verified, close_session,
}
use tapes_monorepo.HostSession.{PublishedSession, HostSession, finish_start, begin_stop}

-- what does not change of a session
abbrev same_session : Tracked → Tracked → Bool
same_session t u =
    t.session_id == u.session_id && t.opened_at == u.opened_at && t.doc_url == u.doc_url

track_connections-same :
    (connections : List SyncConnection) (t : Tracked)
    → same_session (track_connections connections t) t ≡ true
unfolding track_connections track_connection
track_connections-same [] t =
    ground (arith, ==_refl t.session_id, ==_refl t.opened_at, ==_refl t.doc_url)
track_connections-same (c ∷ connections) t = ground (
  arith,
  track_connections-same connections (track_connection c t),
  ==_refl t.session_id,
  ==_refl t.opened_at,
  ==_refl t.doc_url,
)

track-same :
    (now : ℕ) (connections : List SyncConnection) (t : Tracked)
    → same_session (track now connections t) t ≡ true
unfolding track
track-same now connections t = track_connections-same connections t

module _ (iso : ℕ → String) where
  -- The open session is published in its document, by `published_in` too, and is not one of those
  -- whose field is to be cleared; all of these have been used.
  abbrev pub is_published : List String → HostSession → Bool
  is_published used h = all (λ (id, doc). includes used id) h.clearing && elim h.recorder.current [
    | none ↦ true
    | some t ↦
        includes used t.session_id
        && not (any (λ (id, doc). id == t.session_id) h.clearing)
        && elim h.published_in [
          | none ↦ false
          | some target ↦ target.0 == t.session_id && target.1 == t.doc_url
        ]
        && elim (get t.doc_url h.fields) [
          | none ↦ false
          | some f ↦ f.session_id == t.session_id && f.started_at == iso t.opened_at
        ]
  ]

  finish_start-new :
      (used : List String) (session_id : String) (clearing : List (String × String))
      → all (λ (id, doc). includes used id) clearing ≡ true
      → includes used session_id ≡ false
      → any (λ (id, doc). id == session_id) clearing ≡ false
  finish_start-new used session_id [] h new = refl
  finish_start-new used session_id ((id, doc) ∷ clearing) h new = ground (
    arith,
    h,
    new,
    eq_iff id session_id,
    ap (includes used),
    finish_start-new used session_id clearing,
  )

  more_used :
      (used : List String) (session_id : String) (clearing : List (String × String))
      → all (λ (id, doc). includes used id) clearing ≡ true
      → all (λ (id, doc). includes (session_id ∷ used) id) clearing ≡ true
  more_used used session_id [] h = refl
  more_used used session_id ((id, doc) ∷ clearing) h =
      ground (arith, h, more_used used session_id clearing)

  pub finish_start-is_published :
      (used : List String) (found : Bool) (session_id doc_url : String) (now : ℕ)
      (connections : List SyncConnection) (h : HostSession)
      → includes used session_id ≡ false
      → is_published used h ≡ true
      → is_published
          (session_id ∷ used)
          (finish_start iso found session_id doc_url now connections h).0
        ≡ true
  unfolding finish_start open_session
  finish_start-is_published used found session_id doc_url now connections h new shown =
      let t = track now connections (new_session session_id doc_url now) in
      let session : PublishedSession = record { session_id = session_id; started_at = iso now } in
      ground (
        arith,
        new,
        shown,
        more_used used session_id h.clearing,
        finish_start-new used session_id h.clearing,
        track-same now connections (new_session session_id doc_url now),
        eq_iff t.session_id session_id,
        eq_iff t.doc_url doc_url,
        nat_beq_iff t.opened_at now,
        ==_refl session_id,
        ==_refl doc_url,
        ==_refl (iso now),
        get-set doc_url doc_url session h.fields,
      )

  one_more :
      (used : List String) (target : String × String) (clearing : List (String × String))
      → all (λ (id, doc). includes used id) clearing ≡ true
      → includes used target.0 ≡ true
      → all (λ (id, doc). includes used id) (clearing ++ target ∷ []) ≡ true
  one_more used target [] h holds = ground (arith, holds)
  one_more used target ((id, doc) ∷ clearing) h holds =
      ground (arith, h, one_more used target clearing)

  pub begin_stop-is_published :
      (used : List String) (now : ℕ) (h : HostSession)
      → is_published used h ≡ true
      → is_published used (begin_stop now h) ≡ true
  unfolding begin_stop close_session
  begin_stop-is_published used now h shown = elim (Option-cases h.recorder.current) [
    | inl idle ↦ ground (arith, shown, idle)
    | inr (t, busy) ↦ elim (Option-cases h.published_in) [
      | inl nowhere ↦ absurd (ground (arith, shown, busy, nowhere))
      | inr (target, there) ↦
          let is_target : target.0 ≡ t.session_id =
            ground (arith, shown, busy, there, eq_iff target.0 t.session_id) in
          let known : includes used target.0 ≡ true =
            ap (includes used) is_target ∙ ground (arith, shown, busy) in
          ground (arith, shown, busy, there, one_more used target h.clearing, known)
    ]
  ]

  pub connections_changed-is_published :
      (used : List String) (now : ℕ) (cs : List SyncConnection) (h : HostSession)
      → is_published used h ≡ true
      → is_published used (record h { recorder = connections_changed now cs h.recorder }) ≡ true
  unfolding connections_changed
  connections_changed-is_published used now cs h shown = elim (Option-cases h.recorder.current) [
    | inl idle ↦ ground (arith, shown, idle)
    | inr (t, busy) ↦
        let u = track now cs t in
        ground (
          arith,
          shown,
          busy,
          track-same now cs t,
          eq_iff u.session_id t.session_id,
          eq_iff u.doc_url t.doc_url,
          nat_beq_iff u.opened_at t.opened_at,
        )
  ]

  pub claim_verified-is_published :
      (used : List String) (session_id address : String) (h : HostSession)
      → is_published used h ≡ true
      → is_published used (record h { recorder = claim_verified session_id address h.recorder })
        ≡ true
  unfolding claim_verified
  claim_verified-is_published used session_id address h shown = ground (arith, shown)
