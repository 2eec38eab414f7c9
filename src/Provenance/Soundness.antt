-- ===== src/Provenance/Soundness.antt =====
-- recordingProvenance.ts: what a verdict is worth.
use tapes_monorepo.Base.{
  ℕ, String, Bool, true, List, [], ◌∷◌, ◌++◌, map, inl, inr, Option, some, ◌≡◌, refl, subst, arith,
  text_eq, nat_eq, ◌==◌, Bool-cases, Option-cases, is_some, length, All, Dict, get,
}
use tapes_monorepo.Statements.{RecordingClaim, HostReceipt}
use tapes_monorepo.Provenance.{
  Gathered, receipt_failures, session_failures, link_failures, revocation_failures, all_failures,
}
use tapes_monorepo.Provenance.Verdict.{
  ClaimedRecording, receipts_of, is_before, first_by_time, claimed, verdict, verified,
}

module _ (parse_date : String → Option ℕ) where
  pub first_by_time-All :
      {A : Type 0} (Q : A → Type 0) (at : A → String) (xs : List A) (x : A)
      → All Q xs
      → first_by_time parse_date at xs ≡ some x
      → Q x
  unfolding first_by_time
  first_by_time-All Q at [] x h e = absurd (ground (arith, e))
  first_by_time-All Q at (y ∷ ys) x h e = elim (Option-cases (first_by_time parse_date at ys)) [
    | inl last ↦ subst Q (ground (arith, last, e)) h.0
    | inr (z, found) ↦ elim (Bool-cases (is_before parse_date (at z) (at y))) [
      | inl earlier ↦ first_by_time-All Q at ys x h.1 (ground (arith, found, earlier, e))
      | inr later ↦ subst Q (ground (arith, found, later, e)) h.0
    ]
  ]

-- Each receipt names a claim that passed.
receipt_failures-none :
    (claims : Dict String RecordingClaim) (rs : List (String × HostReceipt))
    → receipt_failures claims rs ≡ []
    → All (λ r. is_some (get r.claim claims) ≡ true) (map (λ (hash, r). r) rs)
unfolding receipt_failures
receipt_failures-none claims [] none_failed = tt
receipt_failures-none claims ((hash, r) ∷ rs) none_failed =
    (ground (arith, none_failed), receipt_failures-none claims rs (ground (arith, none_failed)))

append-empty : {A : Type 0} (xs ys : List A) → xs ++ ys ≡ [] → (xs ≡ []) × (ys ≡ [])
append-empty [] ys h = (refl, h)
append-empty (x ∷ xs) ys h = absurd (cc h)

-- Where nothing failed, none of the parts did.
pub all_failures-none :
    (g : Gathered)
    → all_failures g ≡ []
    → (receipt_failures g.claims g.receipts ≡ []) × (link_failures g.claims g.links ≡ [])
unfolding all_failures
all_failures-none g h =
    let receipts = receipt_failures g.claims g.receipts in
    let sessions = session_failures g.claims g.sessions in
    let links = link_failures g.claims g.links in
    let revocations = revocation_failures g.links g.revocations in
    let own = append-empty g.failures (receipts ++ (sessions ++ (links ++ revocations))) h in
    let of_receipts = append-empty receipts (sessions ++ (links ++ revocations)) own.1 in
    let of_sessions = append-empty sessions (links ++ revocations) of_receipts.1 in
    (of_receipts.0, (append-empty links revocations of_sessions.1).0)

empty-length : {A : Type 0} (xs : List A) → (length xs == 0) ≡ true → xs ≡ []
empty-length [] h = refl
empty-length (x ∷ xs) h = absurd (ground (arith, h))

module _ (parse_date : String → Option ℕ) (g : Gathered) (missing : List String) where
  abbrev pub earliest : Option HostReceipt
  earliest = first_by_time parse_date (λ r. r.received_at) (receipts_of g)

  earliest-claim :
      (r : HostReceipt)
      → all_failures g ≡ []
      → earliest ≡ some r
      → is_some (get r.claim g.claims) ≡ true
  earliest-claim r none_failed found =
      first_by_time-All parse_date (λ s. is_some (get s.claim g.claims) ≡ true) (λ s. s.received_at)
        (receipts_of g) r
        (receipt_failures-none g.claims g.receipts (all_failures-none g none_failed).0) found

  -- Whatever is gathered, there is a verdict.
  pub verdict-total : is_some (verdict parse_date g missing) ≡ true
  unfolding verdict
  verdict-total = elim (Bool-cases (length (all_failures g) == 0)) [
    | inr some_failed ↦ ground (arith, some_failed)
    | inl none_failed ↦ elim (Option-cases earliest) [
      | inl no_receipt ↦ ground (arith, none_failed, no_receipt)
      | inr (r, found) ↦ ground (
        arith,
        none_failed,
        found,
        earliest-claim r (empty-length (all_failures g) none_failed) found,
      )
    ]
  ]

  pub verdict-verified :
      (c : ClaimedRecording) (at : String) (own_take : Bool)
      → verdict parse_date g missing ≡ some (verified c at own_take)
      → (all_failures g ≡ [])
        × (r : HostReceipt) × (claim : RecordingClaim) × (earliest ≡ some r)
        × (get r.claim g.claims ≡ some claim)
        × (c ≡ claimed parse_date g (some r.received_at) claim)
        × (at ≡ r.received_at)
        × (own_take ≡ (r.host_key == claim.device_key))
  unfolding verdict
  verdict-verified c at own_take h = elim (Bool-cases (length (all_failures g) == 0)) [
    | inr some_failed ↦ absurd (ground (arith, some_failed, h))
    | inl none_failed ↦ elim (Bool-cases (length missing == 0)) [
      | inr some_missing ↦ absurd (ground (arith, none_failed, some_missing, h))
      | inl none_missing ↦ elim (Option-cases earliest) [
        | inl no_receipt ↦ absurd (ground (arith, none_failed, none_missing, no_receipt, h))
        | inr (r, found) ↦ elim (Option-cases (get r.claim g.claims)) [
          | inl unlisted ↦ absurd (ground (arith, none_failed, none_missing, found, unlisted, h))
          | inr (claim, listed) ↦ (
            empty-length (all_failures g) none_failed,
            r,
            claim,
            found,
            listed,
            ground (arith, none_failed, none_missing, found, listed, h),
            ground (arith, none_failed, none_missing, found, listed, h),
            ground (arith, none_failed, none_missing, found, listed, h),
          )
        ]
      ]
    ]
  ]
