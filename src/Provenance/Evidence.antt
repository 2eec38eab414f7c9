-- ===== src/Provenance/Evidence.antt =====
-- recordingProvenance.ts: the evidence behind a recording that is shown as verified.
use mathlib.Core.List.{Memᴰ}
use tapes_monorepo.Base.{
  ℕ, String, Bool, true, List, [], ◌∷◌, map, ◌≢◌, inl, inr, Option, some, ◌≡◌, ap, subst, arith,
  eq_iff, nat_beq_iff, text_eq, nat_eq, ◌==◌, Bool-cases, Option-cases, All, Dict, get,
}
use tapes_monorepo.Statements.{
  Blob, RecordingClaim, HostReceipt, Payload, Signed, check_recording_claim, check_host_receipt,
  check_session_record, check_device_certificate, check_device_vouch, check_device_revocation,
  a_claim, a_receipt, malformed,
}
use tapes_monorepo.Provenance.{
  StatementProblem, FetchedStatement, Checked, Gathered, nothing_gathered, unique_of, check_typed,
  check_statement, gather, address_mismatch, not_canonical, check_failed, claim_passed,
  receipt_passed, failed_check,
}
use tapes_monorepo.Provenance.Verdict.{}
use tapes_monorepo.Provenance.Backing.{
  IsListed, All-of-mem, AllFetched-unique, Passed, Backed, gather-Backed,
}
use tapes_monorepo.Provenance.Soundness.{}

module _ (verify : String → Payload → String → Bool) (sha256 : String → String)
    (parse : String → Option Signed) (write : Signed → Option String)
    (parse_date : String → Option ℕ) (blob : Blob) (statements : List FetchedStatement) where
  abbrev pub unique : Dict String (Option String)
  unique = unique_of statements []

  abbrev pub gathered : Gathered
  gathered = gather verify sha256 parse write blob unique nothing_gathered

  -- The listed bytes are those of the address, in canonical form, and parse to the statement.
  pub record Genuine (hash : String) (s : Signed) : Type 0 where
    pub bytes : String
    pub listed : IsListed hash bytes statements
    pub addressed : sha256 bytes ≡ hash
    pub parsed : parse bytes ≡ some s
    pub canonical : write s ≡ some bytes

  genuine :
      (hash bytes : String) (outcome : Checked)
      → IsListed hash bytes statements
      → check_statement verify sha256 parse write hash bytes blob ≡ outcome
      → ((p : StatementProblem) → outcome ≢ failed_check p)
      → (s : Signed) × Genuine hash s × (check_typed verify sha256 parse write s blob ≡ outcome)
  unfolding check_statement
  genuine hash bytes outcome listed checked passed = elim (Bool-cases (sha256 bytes == hash)) [
    | inr elsewhere ↦ absurd (passed address_mismatch (ground (arith, elsewhere, checked)))
    | inl addressed ↦ elim (Option-cases (parse bytes)) [
      | inl unparsed ↦
          absurd (passed (check_failed malformed) (ground (arith, addressed, unparsed, checked)))
      | inr (s, parsed) ↦ elim (Option-cases (write s)) [
        | inl unwritten ↦
            absurd (passed not_canonical (ground (arith, addressed, parsed, unwritten, checked)))
        | inr (text, written) ↦ elim (Bool-cases (text == bytes)) [
          | inr other_form ↦ absurd (
              passed not_canonical
                (ground (arith, addressed, parsed, written, other_form, checked)))
          | inl canonical ↦ (
            s,
            record {
              bytes = bytes;
              listed = listed;
              addressed = ground (arith, addressed, eq_iff (sha256 bytes) hash);
              parsed = parsed;
              canonical = ground (arith, written, canonical, eq_iff text bytes);
            },
            ground (arith, addressed, parsed, written, canonical, checked),
          )
        ]
      ]
    ]
  ]

  -- A claim that its device key signed, for this recording's audio.
  pub record ClaimEvidence (hash : String) (claim : RecordingClaim) : Type 0 where
    pub statement : Signed
    pub is_genuine : Genuine hash statement
    pub is_claim : statement.payload ≡ a_claim claim
    pub same_audio : (claim.blob.hash ≡ blob.hash) × (claim.blob.size ≡ blob.size)
    pub is_signed : verify claim.device_key statement.payload statement.signature ≡ true

  typed-claim :
      (s : Signed) (claim : RecordingClaim)
      → check_typed verify sha256 parse write s blob ≡ claim_passed claim
      → (s.payload ≡ a_claim claim)
        × (claim.blob.hash ≡ blob.hash)
        × (claim.blob.size ≡ blob.size)
        × (verify claim.device_key s.payload s.signature ≡ true)
  unfolding check_typed check_recording_claim check_host_receipt check_session_record
      check_device_certificate check_device_vouch check_device_revocation
  typed-claim s claim h = (
    ground (arith, h),
    ground (arith, h, eq_iff claim.blob.hash blob.hash),
    ground (arith, h, nat_beq_iff claim.blob.size blob.size),
    ground (arith, h),
  )

  pub claim-evidence :
      (hash : String) (claim : RecordingClaim)
      → Passed verify sha256 parse write blob
          (λ h b. IsListed h b statements)
          hash
          (claim_passed claim)
      → ClaimEvidence hash claim
  claim-evidence hash claim (bytes, listed, checked) =
      let found =
        genuine hash bytes (claim_passed claim) listed checked
          (λ p e. absurd (ground (arith, e))) in
      let typed = typed-claim found.0 claim found.2 in
      record {
        statement = found.0;
        is_genuine = found.1;
        is_claim = typed.0;
        same_audio = (typed.1, typed.2);
        is_signed = typed.3;
      }

  -- A receipt for a claim, that the host key in it signed.
  pub record ReceiptEvidence (hash : String) (r : HostReceipt) : Type 0 where
    pub statement : Signed
    pub is_genuine : Genuine hash statement
    pub is_receipt : statement.payload ≡ a_receipt r
    pub is_signed : verify r.host_key statement.payload statement.signature ≡ true

  typed-receipt :
      (s : Signed) (r : HostReceipt)
      → check_typed verify sha256 parse write s blob ≡ receipt_passed r
      → (s.payload ≡ a_receipt r) × (verify r.host_key s.payload s.signature ≡ true)
  unfolding check_typed check_recording_claim check_host_receipt check_session_record
      check_device_certificate check_device_vouch check_device_revocation
  typed-receipt s r h = (ground (arith, h), ground (arith, h))

  receipt-evidence :
      (hash : String) (r : HostReceipt)
      → Passed verify sha256 parse write blob
          (λ h b. IsListed h b statements)
          hash
          (receipt_passed r)
      → ReceiptEvidence hash r
  receipt-evidence hash r (bytes, listed, checked) =
      let found =
        genuine hash bytes (receipt_passed r) listed checked (λ p e. absurd (ground (arith, e))) in
      let typed = typed-receipt found.0 r found.2 in
      record {
        statement = found.0;
        is_genuine = found.1;
        is_receipt = typed.0;
        is_signed = typed.1;
      }

  pub backed : Backed verify sha256 parse write blob (λ h b. IsListed h b statements) gathered
  unfolding get
  backed =
      gather-Backed verify sha256 parse write blob (λ h b. IsListed h b statements) unique
        nothing_gathered
        (AllFetched-unique (λ h b. IsListed h b statements) statements []
          (All-of-mem statements
            (λ s m bytes e. subst (λ t. Memᴰ t statements) (ap (λ b. (s.0, b)) e) m))
          tt)
        (record {
          claims = λ hash c found. absurd (ground (arith, found));
          receipts = tt;
          links = λ hash l found. absurd (ground (arith, found));
        })

  pub receipts-evidence :
      (rs : List (String × HostReceipt))
      → All
          (λ r.
            Passed verify sha256 parse write blob
              (λ h b. IsListed h b statements)
              r.0
              (receipt_passed r.1))
          rs
      → All (λ r. (hash : String) × ReceiptEvidence hash r) (map (λ (hash, r). r) rs)
  receipts-evidence [] h = tt
  receipts-evidence ((hash, r) ∷ rs) h =
      ((hash, receipt-evidence hash r h.0), receipts-evidence rs h.1)
