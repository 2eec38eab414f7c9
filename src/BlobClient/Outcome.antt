-- ===== src/BlobClient/Outcome.antt =====
-- blobClient.ts: what a search over the hosts comes to, and why it fails.
use tapes_monorepo.Base.{
  Bool, true, false, List, [], ◌∷◌, ◌++◌, map, append-nil, append_assoc, ◌⊎◌, inl, inr, ◌≡◌, refl,
  sym, ◌∙◌, ap, subst, arith, text_eq, nat_eq, ◌==◌, list_eq, filter, all,
}
use tapes_monorepo.BlobClient.{
  BlobEndpoint, BlobAttempt, classify_blob_failure, Answer, BlobOutcome, fetch_loop,
  fetch_blob_from_any, status, network, served, refused, no_answer, withdrawn, found, blob_failed,
  aborted,
}

answer_cases :
    {A : Type 0} (answer : Answer A)
    → ((a : A) × (answer ≡ served a))
      ⊎ ((answer ≡ withdrawn)
          ⊎ (elim answer [ refused code ↦ true | no_answer ↦ true | _ ↦ false ] ≡ true))
answer_cases (served a) = inl (a, refl)
answer_cases (refused code) = inr (inr refl)
answer_cases no_answer = inr (inr refl)
answer_cases withdrawn = inr (inl refl)

module _ {A : Type 0} (ask : BlobEndpoint → Answer A) where
  -- a host that did not serve the blob, so that the next is asked
  abbrev pub fell_through : BlobEndpoint → Bool
  fell_through e = elim (ask e) [
    | served a ↦ false
    | refused code ↦ true
    | no_answer ↦ true
    | withdrawn ↦ false
  ]

  abbrev pub says_missing : BlobEndpoint → Bool
  says_missing e = elim (ask e) [ refused code ↦ code == 404 | _ ↦ false ]

  abbrev pub attempt_of : BlobEndpoint → BlobAttempt
  attempt_of e = elim (ask e) [ refused code ↦ status code | _ ↦ network ]

  -- What an outcome says of the hosts that were to be asked, after others that answered 404 and others
  -- that were tried.
  abbrev pub Explains :
      List BlobEndpoint → List BlobEndpoint → List BlobAttempt → BlobOutcome A → Type 0
  Explains es missing_from attempts (found a e lacking) =
      (before : List BlobEndpoint) × (after : List BlobEndpoint) × (es ≡ before ++ e ∷ after)
      × (ask e ≡ served a)
      × (all fell_through before ≡ true)
      × (lacking ≡ missing_from ++ filter says_missing before)
  Explains es missing_from attempts (blob_failed reason tried) =
      (all fell_through es ≡ true)
      × (tried ≡ attempts ++ map attempt_of es)
      × (reason ≡ classify_blob_failure tried)
  Explains es missing_from attempts aborted =
      (before : List BlobEndpoint) × (e : BlobEndpoint) × (after : List BlobEndpoint) × (es
        ≡ before ++ e ∷ after)
      × (ask e ≡ withdrawn)
      × (all fell_through before ≡ true)

  pub fetch_loop-step :
      (e : BlobEndpoint) (es missing_from : List BlobEndpoint) (attempts : List BlobAttempt)
      → fell_through e ≡ true
      → fetch_loop ask (e ∷ es) missing_from attempts
        ≡ fetch_loop ask es
            (missing_from ++ filter says_missing (e ∷ []))
            (attempts ++ attempt_of e ∷ [])
  unfolding fetch_loop
  fetch_loop-step e es missing_from attempts through =
      ground (arith, through, append-nil missing_from)

  Explains-step :
      (e : BlobEndpoint) (es missing_from : List BlobEndpoint) (attempts : List BlobAttempt)
      (outcome : BlobOutcome A)
      → fell_through e ≡ true
      → Explains es
          (missing_from ++ filter says_missing (e ∷ []))
          (attempts ++ attempt_of e ∷ [])
          outcome
      → Explains (e ∷ es) missing_from attempts outcome
  Explains-step e es missing_from attempts (found a server lacking) through
        (before, after, whole, serves, fell, lacks) =
      (
        e ∷ before,
        after,
        ap (λ rest. e ∷ rest) whole,
        serves,
        ground (arith, fell, through),
        ground (
          arith,
          lacks,
          append_assoc missing_from (filter says_missing (e ∷ [])) (filter says_missing before),
        ),
      )
  Explains-step e es missing_from attempts (blob_failed reason tried) through (fell, listed, why) =
      (
        ground (arith, fell, through),
        listed ∙ append_assoc attempts (attempt_of e ∷ []) (map attempt_of es),
        why,
      )
  Explains-step e es missing_from attempts aborted through
        (before, stopped, after, whole, withdraws, fell) =
      (
        e ∷ before,
        stopped,
        after,
        ap (λ rest. e ∷ rest) whole,
        withdraws,
        ground (arith, fell, through),
      )

  fetch_loop_lem :
      (es missing_from : List BlobEndpoint) (attempts : List BlobAttempt)
      → Explains es missing_from attempts (fetch_loop ask es missing_from attempts)
  unfolding fetch_loop
  fetch_loop_lem [] missing_from attempts = (refl, sym (append-nil attempts), refl)
  fetch_loop_lem (e ∷ es) missing_from attempts = elim (answer_cases (ask e)) [
    | inl (a, serves) ↦
        let same : fetch_loop ask (e ∷ es) missing_from attempts ≡ found a e missing_from =
          ground (arith, serves) in
        subst (Explains (e ∷ es) missing_from attempts) (sym same)
          ([], es, refl, serves, refl, sym (append-nil missing_from))
    | inr (inl withdraws) ↦
        let same : fetch_loop ask (e ∷ es) missing_from attempts ≡ aborted =
          ground (arith, withdraws) in
        subst (Explains (e ∷ es) missing_from attempts) (sym same)
          ([], e, es, refl, withdraws, refl)
    | inr (inr fails) ↦
        let through : fell_through e ≡ true = ground (arith, fails) in
        let later_missing = missing_from ++ filter says_missing (e ∷ []) in
        let later_attempts = attempts ++ attempt_of e ∷ [] in
        subst (Explains (e ∷ es) missing_from attempts)
          (sym (fetch_loop-step e es missing_from attempts through))
          (Explains-step e es missing_from attempts (fetch_loop ask es later_missing later_attempts)
            through (fetch_loop_lem es later_missing later_attempts))
  ]

  -- A blob that is found comes from a host that serves it, every host before it in the list refused
  -- it or did not answer, and just those of them that answered 404 are reported to lack it. Where
  -- none is found, every host refused it or did not answer, unless the caller withdrew the question
  -- at a host that was reached so.
  pub fetch_blob_from_any_lem :
      (e : BlobEndpoint) (es : List BlobEndpoint)
      → Explains (e ∷ es) [] [] (fetch_blob_from_any ask (e ∷ es))
  unfolding fetch_blob_from_any
  fetch_blob_from_any_lem e es = fetch_loop_lem (e ∷ es) [] []
