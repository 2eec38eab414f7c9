-- ===== src/HostSession/Always.antt =====
-- hostSession.ts: sequences of what the host does with its session.
use tapes_monorepo.Base.{
  ℕ, String, Bool, true, false, not, ◌&&◌, List, [], ◌∷◌, inl, inr, Option, none, some, ◌≡◌, refl,
  ap, arith, eq_iff, text_eq, nat_eq, ◌==◌, Option-cases, list_eq, includes, Dict, get,
}
use tapes_monorepo.Sessions.{end_grace}
use tapes_monorepo.HostSession.{
  PublishedSession, HostSession, current, crash, SessionStep, take_session_step, take_session_steps,
  starts, stops, clears, clears_stale, connects, verifies, settles, crashes,
}
use tapes_monorepo.HostSession.Published.{
  is_published, finish_start-is_published, begin_stop-is_published,
  connections_changed-is_published, claim_verified-is_published,
}
use tapes_monorepo.HostSession.Cleared.{finish_stop-is_published, clear_stale-is_published}

-- a host that has just started
abbrev pub launched : Dict String PublishedSession → HostSession
launched fields = record {
  recorder = record { current = none; closing = [] };
  published_in = none;
  fields = fields;
  clearing = [];
}

abbrev pub is_session : PublishedSession → Option PublishedSession → Bool
is_session session none = false
is_session session (some f) =
    f.session_id == session.session_id && f.started_at == session.started_at

-- the names that starts take, and whether they are new
abbrev pub used_after : List String → SessionStep → List String
used_after used step = elim step [
  | starts found session_id doc_url now cs ↦ session_id ∷ used
  | _ ↦ used
]

abbrev pub are_new : List String → List SessionStep → Bool
are_new used [] = true
are_new used (step ∷ steps) =
    let rest = are_new (used_after used step) steps in
    elim step [
      | starts found session_id doc_url now cs ↦ not (includes used session_id) && rest
      | _ ↦ rest
    ]

are_new-rest :
    (used : List String) (step : SessionStep) (steps : List SessionStep)
    → are_new used (step ∷ steps) ≡ true
    → are_new (used_after used step) steps ≡ true
are_new-rest used (starts found session_id doc_url now cs) steps new = ground (arith, new)
are_new-rest used (stops now) steps new = new
are_new-rest used (clears found session_id doc_url) steps new = new
are_new-rest used (clears_stale doc_url) steps new = new
are_new-rest used (connects now cs) steps new = new
are_new-rest used (verifies session_id address) steps new = new
are_new-rest used (settles session_id) steps new = new
are_new-rest used crashes steps new = new

module _ (iso : ℕ → String) (host_key : String) where
  end_grace-is_published :
      (used : List String) (session_id : String) (h : HostSession)
      → is_published iso used h ≡ true
      → is_published iso used
          (record h { recorder = (end_grace iso host_key session_id h.recorder).0 })
        ≡ true
  unfolding end_grace
  end_grace-is_published used session_id h shown = ground (arith, shown)

  take_session_step-is_published :
      (used : List String) (step : SessionStep) (steps : List SessionStep) (h : HostSession)
      → are_new used (step ∷ steps) ≡ true
      → is_published iso used h ≡ true
      → is_published iso (used_after used step) (take_session_step iso host_key step h) ≡ true
  unfolding take_session_step crash
  take_session_step-is_published used (starts found session_id doc_url now cs) steps h new shown =
      finish_start-is_published iso used found session_id doc_url now cs h (ground (arith, new))
        shown
  take_session_step-is_published used (stops now) steps h new shown =
      begin_stop-is_published iso used now h shown
  take_session_step-is_published used (clears found session_id doc_url) steps h new shown =
      finish_stop-is_published iso used found session_id doc_url h shown
  take_session_step-is_published used (clears_stale doc_url) steps h new shown =
      clear_stale-is_published iso used doc_url h shown
  take_session_step-is_published used (connects now cs) steps h new shown =
      connections_changed-is_published iso used now cs h shown
  take_session_step-is_published used (verifies session_id address) steps h new shown =
      claim_verified-is_published iso used session_id address h shown
  take_session_step-is_published used (settles session_id) steps h new shown =
      end_grace-is_published used session_id h shown
  take_session_step-is_published used crashes steps h new shown = refl

  take_session_steps-is_published :
      (used : List String) (steps : List SessionStep) (h : HostSession)
      → are_new used steps ≡ true
      → is_published iso used h ≡ true
      → (later : List String) × (is_published iso later (take_session_steps iso host_key steps h)
          ≡ true)
  unfolding take_session_steps
  take_session_steps-is_published used [] h new shown = (used, shown)
  take_session_steps-is_published used (step ∷ steps) h new shown =
      take_session_steps-is_published (used_after used step) steps
        (take_session_step iso host_key step h) (are_new-rest used step steps new)
        (take_session_step-is_published used step steps h new shown)

  -- whether `current` is what the field of the open session's document says
  abbrev pub is_current_published : HostSession → Bool
  is_current_published h = elim (current iso h) [
    | none ↦ true
    | some session ↦ elim h.published_in [
      | none ↦ false
      | some (session_id, doc_url) ↦
          session_id == session.session_id && is_session session (get doc_url h.fields)
    ]
  ]

  is_published-current :
      (used : List String) (h : HostSession)
      → is_published iso used h ≡ true
      → is_current_published h ≡ true
  unfolding current
  is_published-current used h shown = elim (Option-cases h.recorder.current) [
    | inl idle ↦ ground (arith, idle)
    | inr (t, busy) ↦ elim (Option-cases h.published_in) [
      | inl nowhere ↦ absurd (ground (arith, shown, busy, nowhere))
      | inr (target, there) ↦
          let doc : target.1 ≡ t.doc_url =
            ground (arith, shown, busy, there, eq_iff target.1 t.doc_url) in
          let same : get target.1 h.fields ≡ get t.doc_url h.fields =
            ap (λ u. get u h.fields) doc in
          ground (arith, shown, busy, there, same)
    ]
  ]

  -- After any sequence of starts, stops, clearings that come late, fail or are asked for, connections,
  -- claims, settled records and crashes, from a host that has just started, `current` is what the
  -- session field of the open session's document says. No start takes the name of an earlier one.
  pub current_is_published :
      (steps : List SessionStep) (fields : Dict String PublishedSession)
      → are_new [] steps ≡ true
      → is_current_published (take_session_steps iso host_key steps (launched fields)) ≡ true
  current_is_published steps fields new =
      let (later, shown) = take_session_steps-is_published [] steps (launched fields) new refl in
      is_published-current later (take_session_steps iso host_key steps (launched fields)) shown
