-- ===== src/Vouching/Requests.antt =====
-- hostVouching.ts: the requests that wait for the operator.
use tapes_monorepo.Base.{
  ℕ, ◌+◌, ◌≤◌, String, Bool, true, false, ◌&&◌, List, [], ◌∷◌, ◌⊎◌, inl, inr, Option, none, some,
  ◌≡◌, refl, sym, ap, subst, arith, eq_iff, leb, text_eq, nat_eq, Bool-cases, Option-cases, or_else,
  indicator, length, filter, find, Dict, get, set,
}
use tapes_monorepo.Vouching.Vouches.{settle_entry}
use tapes_monorepo.Statements.{
  VouchRequest, Payload, Signed, Problem, Check, check_vouch_request, passes, fails,
}
use tapes_monorepo.Roster.{find_person}
use tapes_monorepo.Vouching.{
  max_pending, Entry, HostVouching, is_pending, drop_stale_entries, drop_stale, pending_of,
  pending_entry, reject, pending, rejected, vouched, request, is_asked_by,
}

-- The waiting requests of a kind.
abbrev pub waiting : (Entry → Bool) → Dict String Entry → ℕ
waiting p entries = length (filter p (pending_of entries))

waiting-drop_stale :
    (p : Entry → Bool) (now : ℕ) (entries : Dict String Entry)
    → waiting p (drop_stale_entries now entries) ≤ waiting p entries
unfolding drop_stale_entries
waiting-drop_stale p now [] = omega arith
waiting-drop_stale p now ((id, e) ∷ entries) = ground (arith, waiting-drop_stale p now entries)

waiting-set :
    (p : Entry → Bool) (id : String) (e : Entry) (entries : Dict String Entry)
    → waiting p (set id e entries) ≤ waiting p entries + indicator (is_pending e && p e)
unfolding set
waiting-set p id e [] = ground arith
waiting-set p id e ((j, f) ∷ entries) = ground (arith, waiting-set p id e entries)

waiting-none : (p : Entry → Bool) (es : List Entry) → find p es ≡ none → length (filter p es) ≡ 0
waiting-none p [] h = refl
waiting-none p (e ∷ es) h = ground (arith, h, waiting-none p es)

pub length-filter-all : (es : List Entry) → length (filter (λ e. true) es) ≡ length es
length-filter-all [] = refl
length-filter-all (e ∷ es) = omega (arith, length-filter-all es)

-- At most sixteen requests wait, and no device has two that wait for one person.
pub record IsSound (entries : Dict String Entry) : Type 0 where
  pub few : waiting (λ e. true) entries ≤ max_pending
  pub apart : (r : VouchRequest) → waiting (is_asked_by r) entries ≤ 1

pub drop_stale-IsSound :
    (now : ℕ) (entries : Dict String Entry)
    → IsSound entries
    → IsSound (drop_stale_entries now entries)
drop_stale-IsSound now entries ok = record {
  few = omega (arith, ok.few, waiting-drop_stale (λ e. true) now entries);
  apart = λ r. omega (arith, ok.apart r, waiting-drop_stale (is_asked_by r) now entries);
}

-- An entry that waits for nothing any more.
set-IsSound :
    (id : String) (e : Entry) (entries : Dict String Entry)
    → is_pending e ≡ false
    → IsSound entries
    → IsSound (set id e entries)
set-IsSound id e entries done ok = record {
  few = ground (arith, done, ok.few, waiting-set (λ e. true) id e entries);
  apart = λ r. ground (arith, done, ok.apart r, waiting-set (is_asked_by r) id e entries);
}

pub reject-IsSound :
    (id : String) (now : ℕ) (h : HostVouching)
    → IsSound h.entries
    → IsSound (reject id now h).entries
unfolding reject
reject-IsSound id now h ok =
    let h' = drop_stale now h in
    let ok' = drop_stale-IsSound now h.entries ok in
    elim (Option-cases (pending_entry id h')) [
      | inl gone ↦ subst IsSound (sym (ground (arith, gone))) ok'
      | inr (e, found) ↦
          subst IsSound (sym (ground (arith, found)))
            (set-IsSound id (record e { status = rejected }) h'.entries refl ok')
    ]

pub settle_entry-IsSound :
    (id : String) (vouch : Signed) (entries : Dict String Entry)
    → IsSound entries
    → IsSound (settle_entry id vouch entries)
unfolding settle_entry
settle_entry-IsSound id vouch entries ok = elim (Option-cases (get id entries)) [
  | inl gone ↦ subst IsSound (sym (ground (arith, gone))) ok
  | inr (e, found) ↦
      subst IsSound (sym (ground (arith, found)))
        (set-IsSound id (record e { status = vouched; vouch = some vouch }) entries refl ok)
]

Check-cases :
    (c : Check VouchRequest)
    → ((p : Problem) × (c ≡ fails p)) ⊎ ((r : VouchRequest) × (c ≡ passes r))
Check-cases (fails p) = inl (p, refl)
Check-cases (passes r) = inr (r, refl)

module _ (verify : String → Payload → String → Bool) (fingerprint : String → Option String)
    (h : HostVouching) (s : Signed) (fresh : String) (now : ℕ) where
  abbrev before : HostVouching
  before = drop_stale now h

  abbrev pub after : HostVouching
  after = (request verify fingerprint h s fresh now).0

  abbrev IsAdmitted : Entry → Type 0
  IsAdmitted e =
      (after ≡ record before { entries = set fresh e before.entries })
      × (find (is_asked_by e.request) (pending_of before.entries) ≡ none)
      × (leb max_pending (length (pending_of before.entries)) ≡ false)

  request_cases : (after ≡ before) ⊎ ((e : Entry) × IsAdmitted e)
  unfolding request
  request_cases = elim (Check-cases (check_vouch_request verify s)) [
    | inl (p, bad) ↦ inl (ground (arith, bad))
    | inr (r, good) ↦ elim (Option-cases (find_person r.person_key before.roster)) [
      | inl absent ↦ inl (ground (arith, good, absent))
      | inr (person, known) ↦
          elim (Option-cases (find (is_asked_by r) (pending_of before.entries))) [
            | inr (existing, waits) ↦ inl (ground (arith, good, known, waits))
            | inl unasked ↦
                elim (Bool-cases (leb max_pending (length (pending_of before.entries)))) [
                  | inl full ↦ inl (ground (arith, good, known, unasked, full))
                  | inr room ↦ inr (
                    record {
                      id = fresh;
                      request = r;
                      person_name = person.name;
                      device_fingerprint = or_else (fingerprint r.device_key) "?";
                      received_at = now;
                      status = pending;
                      vouch = none;
                    },
                    (ground (arith, good, known, unasked, room), unasked, room),
                  )
                ]
          ]
    ]
  ]

  admitted-IsSound : (e : Entry) → IsAdmitted e → IsSound before.entries → IsSound after.entries
  admitted-IsSound e admitted ok = subst IsSound (sym (ap (λ x. x.entries) admitted.0)) (record {
    few = ground (
      arith,
      ok.few,
      admitted.2,
      waiting-set (λ f. true) fresh e before.entries,
      length-filter-all (pending_of before.entries),
    );
    apart = λ r. ground (
      arith,
      ok.apart r,
      waiting-set (is_asked_by r) fresh e before.entries,
      waiting-none (is_asked_by e.request) (pending_of before.entries) admitted.1,
      eq_iff e.request.device_key r.device_key,
      eq_iff e.request.person_key r.person_key,
    );
  })

  pub request-IsSound : IsSound h.entries → IsSound after.entries
  unfolding drop_stale
  request-IsSound ok =
      let ok' = drop_stale-IsSound now h.entries ok in
      elim request_cases [
        | inl same ↦ subst IsSound (sym (ap (λ x. x.entries) same)) ok'
        | inr (e, admitted) ↦ admitted-IsSound e admitted ok'
      ]
