-- ===== src/BlobClient/Failures.antt =====
-- blobClient.ts: the reason of a failure, and the search that transfers nothing.
use tapes_monorepo.Base.{
  ℕ, Bool, true, false, ◌||◌, List, [], ◌∷◌, ◌++◌, map, append-nil, append_assoc, Option, none,
  some, ◌≡◌, refl, ◌∙◌, arith, if◌then◌else◌, text_eq, nat_eq, ◌==◌, list_eq, filter, any, all,
}
use tapes_monorepo.BlobClient.{
  BlobEndpoint, BlobAttempt, saw_status, saw_network, classify_blob_failure, Answer, fetch_loop,
  fetch_blob_from_any, probe_loop, probe_blob_endpoints, status, network, unauthorized, missing,
  unreachable, served, refused, no_answer, withdrawn, blob_failed,
}
use tapes_monorepo.BlobClient.Outcome.{fell_through, says_missing, attempt_of, fetch_loop-step}

module _ {A : Type 0} (ask : BlobEndpoint → Answer A) where
  -- what a host did, as a test of its answer
  abbrev pub answers_with : ℕ → BlobEndpoint → Bool
  answers_with wanted e = elim (ask e) [ refused code ↦ code == wanted | _ ↦ false ]

  abbrev pub is_silent : BlobEndpoint → Bool
  is_silent e = elim (ask e) [ no_answer ↦ true | _ ↦ false ]

  abbrev pub turns_away : BlobEndpoint → Bool
  turns_away e = answers_with 401 e || answers_with 403 e

  saw_status-map :
      (wanted : ℕ) (es : List BlobEndpoint)
      → saw_status wanted (map (attempt_of ask) es) ≡ any (answers_with wanted) es
  saw_status-map wanted [] = refl
  saw_status-map wanted (e ∷ es) = ground (arith, saw_status-map wanted es)

  saw_network-map :
      (es : List BlobEndpoint)
      → all (fell_through ask) es ≡ true
      → saw_network (map (attempt_of ask) es) ≡ any is_silent es
  saw_network-map [] fell = refl
  saw_network-map (e ∷ es) fell = ground (arith, fell, saw_network-map es)

  any-or :
      (p q : BlobEndpoint → Bool) (es : List BlobEndpoint)
      → any (λ e. p e || q e) es ≡ (any p es || any q es)
  any-or p q [] = refl
  any-or p q (e ∷ es) = ground (arith, any-or p q es)

  fetch_loop_fails :
      (es missing_from : List BlobEndpoint) (attempts : List BlobAttempt)
      → all (fell_through ask) es ≡ true
      → let tried = attempts ++ map (attempt_of ask) es in
        fetch_loop ask es missing_from attempts ≡ blob_failed (classify_blob_failure tried) tried
  unfolding fetch_loop
  fetch_loop_fails [] missing_from attempts fell = rw append-nil
  fetch_loop_fails (e ∷ es) missing_from attempts fell =
      let next = missing_from ++ filter (says_missing ask) (e ∷ []) in
      let later = attempts ++ attempt_of ask e ∷ [] in
      let through : fell_through ask e ≡ true = ground (arith, fell) in
      let rest : all (fell_through ask) es ≡ true = ground (arith, fell) in
      fetch_loop-step ask e es missing_from attempts through
      ∙ fetch_loop_fails es next later rest
      ∙ rw (append_assoc attempts (attempt_of ask e ∷ []) (map (attempt_of ask) es))

  -- Where no host serves the blob and the caller does not withdraw, the search fails, with what each
  -- host did: as unauthorized if one of them answered 401 or 403; else as unreachable if one did not
  -- answer; else as missing if one answered 404, whatever others answered; and else as unreachable.
  pub fetch_failure_lem :
      (e : BlobEndpoint) (es : List BlobEndpoint)
      → all (fell_through ask) (e ∷ es) ≡ true
      → fetch_blob_from_any ask (e ∷ es)
        ≡ blob_failed
            (if any turns_away (e ∷ es)
              then unauthorized
              else if any is_silent (e ∷ es)
              then unreachable
              else if any (answers_with 404) (e ∷ es)
              then missing
              else unreachable)
            (map (attempt_of ask) (e ∷ es))
  unfolding fetch_blob_from_any classify_blob_failure
  fetch_failure_lem e es fell = ground (
    arith,
    fell,
    fetch_loop_fails (e ∷ es) [] [] fell,
    saw_status-map 401 (e ∷ es),
    saw_status-map 403 (e ∷ es),
    saw_status-map 404 (e ∷ es),
    saw_network-map (e ∷ es) fell,
    any-or (answers_with 401) (answers_with 403) (e ∷ es),
  )

  -- `headBlob` of a host that answers like this
  abbrev pub as_head : Answer A → Answer (Option A)
  as_head (served a) = served (some a)
  as_head (refused code) = if code == 404 then served none else refused code
  as_head no_answer = no_answer
  as_head withdrawn = withdrawn

  probe_loop_lem :
      (es missing_from : List BlobEndpoint) (attempts : List BlobAttempt)
      → probe_loop (λ e. as_head (ask e)) es missing_from attempts
        ≡ fetch_loop ask es missing_from attempts
  unfolding probe_loop fetch_loop
  probe_loop_lem [] missing_from attempts = refl
  probe_loop_lem (e ∷ es) missing_from attempts =
      let also = missing_from ++ e ∷ [] in
      let code : ℕ = elim (ask e) [ refused c ↦ c | _ ↦ 0 ] in
      ground (
        arith,
        probe_loop_lem es missing_from (attempts ++ network ∷ []),
        probe_loop_lem es also (attempts ++ status 404 ∷ []),
        probe_loop_lem es missing_from (attempts ++ status code ∷ []),
      )

  -- The search by HEAD comes to the same as the search that fetches, where each host answers both
  -- alike: the same host, the same hosts that lack the blob, and the same reason to fail.
  pub probe_blob_endpoints_lem :
      (es : List BlobEndpoint)
      → probe_blob_endpoints (λ e. as_head (ask e)) es ≡ fetch_blob_from_any ask es
  unfolding probe_blob_endpoints fetch_blob_from_any
  probe_blob_endpoints_lem [] = refl
  probe_blob_endpoints_lem (e ∷ es) = probe_loop_lem (e ∷ es) [] []
