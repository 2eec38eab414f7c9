-- ===== src/HostSession/Cleared.antt =====
-- hostSession.ts: the fields that stop and clearStale clear.
use tapes_monorepo.Base.{
  ℕ, String, Bool, true, false, not, ◌&&◌, List, [], ◌∷◌, inl, inr, some, ◌≡◌, refl, ◌∙◌, ap, arith,
  eq_iff, text_eq, nat_eq, ◌==◌, Option-cases, list_eq, filter, any, all, includes, get, get-delete,
}
use tapes_monorepo.HostSession.{HostSession, finish_stop, clear_stale}
use tapes_monorepo.HostSession.Published.{is_published}

module _ (iso : ℕ → String) where
  -- what is left to clear without one of them
  abbrev rest_of : String → String → List (String × String) → List (String × String)
  rest_of session_id doc_url = filter (λ (id, doc). not (id == session_id && doc == doc_url))

  rest_of-used :
      (used : List String) (session_id doc_url : String) (clearing : List (String × String))
      → all (λ (id, doc). includes used id) clearing ≡ true
      → all (λ (id, doc). includes used id) (rest_of session_id doc_url clearing) ≡ true
  rest_of-used used session_id doc_url [] h = refl
  rest_of-used used session_id doc_url ((id, doc) ∷ clearing) h =
      ground (arith, h, rest_of-used used session_id doc_url clearing)

  rest_of-other :
      (name session_id doc_url : String) (clearing : List (String × String))
      → any (λ (id, doc). id == name) clearing ≡ false
      → any (λ (id, doc). id == name) (rest_of session_id doc_url clearing) ≡ false
  rest_of-other name session_id doc_url [] h = refl
  rest_of-other name session_id doc_url ((id, doc) ∷ clearing) h =
      ground (arith, h, rest_of-other name session_id doc_url clearing)

  waits-other :
      (name session_id doc_url : String) (clearing : List (String × String))
      → any (λ (id, doc). id == name) clearing ≡ false
      → any (λ (id, doc). id == session_id && doc == doc_url) clearing ≡ true
      → (name == session_id) ≡ false
  waits-other name session_id doc_url [] h waits = absurd (ground (arith, waits))
  waits-other name session_id doc_url ((id, doc) ∷ clearing) h waits = ground (
    arith,
    h,
    waits,
    eq_iff name session_id,
    eq_iff id session_id,
    eq_iff id name,
    waits-other name session_id doc_url clearing,
  )

  pub finish_stop-is_published :
      (used : List String) (found : Bool) (session_id doc_url : String) (h : HostSession)
      → is_published iso used h ≡ true
      → is_published iso used (finish_stop found session_id doc_url h) ≡ true
  unfolding finish_stop
  finish_stop-is_published used found session_id doc_url h shown =
      elim (Option-cases h.recorder.current) [
        | inl idle ↦ ground (arith, shown, idle, rest_of-used used session_id doc_url h.clearing)
        | inr (t, busy) ↦ elim (Option-cases (get t.doc_url h.fields)) [
          | inl nothing ↦ absurd (ground (arith, shown, busy, nothing))
          | inr (f, there) ↦
              let named : f.session_id ≡ t.session_id =
                ground (arith, shown, busy, there, eq_iff f.session_id t.session_id) in
              let same : (doc_url == t.doc_url) ≡ true → get doc_url h.fields ≡ some f = λ e.
                ap (λ u. get u h.fields) (ground (arith, e, eq_iff doc_url t.doc_url)) ∙ there in
              ground (
                arith,
                shown,
                busy,
                there,
                same,
                rest_of-used used session_id doc_url h.clearing,
                rest_of-other t.session_id session_id doc_url h.clearing,
                waits-other t.session_id session_id doc_url h.clearing,
                get-delete doc_url t.doc_url h.fields,
                ap (λ id. id == session_id) named,
              )
        ]
      ]

  pub clear_stale-is_published :
      (used : List String) (doc_url : String) (h : HostSession)
      → is_published iso used h ≡ true
      → is_published iso used (clear_stale doc_url h) ≡ true
  unfolding clear_stale
  clear_stale-is_published used doc_url h shown = elim (Option-cases h.recorder.current) [
    | inl idle ↦ ground (arith, shown, idle)
    | inr (t, busy) ↦ ground (
      arith,
      shown,
      busy,
      get-delete doc_url t.doc_url h.fields,
      eq_iff doc_url t.doc_url,
      ap (λ u. get u h.fields),
    )
  ]
