-- ===== src/Provenance/Verified.antt =====
-- recordingProvenance.ts: what a recording that is shown as verified stands on.
use tapes_monorepo.Base.{
  ℕ, String, Bool, true, false, not, List, [], ◌∷◌, inl, inr, Option, some, ◌≡◌, sym, ◌∙◌, ap,
  arith, eq_iff, text_eq, nat_eq, ◌==◌, ==_refl, Option-cases, is_some, any, Dict, get,
}
use tapes_monorepo.Statements.{
  Blob, RecordingClaim, HostReceipt, Payload, Signed, DeviceLink, link_device_key,
}
use tapes_monorepo.Provenance.{FetchedStatement, named_by, link_problem, link_failures, link_passed}
use tapes_monorepo.Provenance.Verdict.{
  VerifiedPerson, ClaimedRecording, RecordingProvenance, verified_person, receipts_of, claimed,
  missing_of, verify_recording_statements, verified,
}
use tapes_monorepo.Provenance.Backing.{IsListed, Passed}
use tapes_monorepo.Provenance.Soundness.{
  first_by_time-All, all_failures-none, verdict-total, verdict-verified,
}
use tapes_monorepo.Provenance.Evidence.{
  unique, gathered, ClaimEvidence, claim-evidence, ReceiptEvidence, backed, receipts-evidence,
}

-- A link is for the device of each claim that names it.
link_failures-none :
    (claims : Dict String RecordingClaim) (links : Dict String DeviceLink) (hash : String)
    (link : DeviceLink)
    → link_failures claims links ≡ []
    → get hash links ≡ some link
    → any (λ c. not (c.device_key == link_device_key link)) (named_by hash claims) ≡ false
unfolding link_failures link_problem get
link_failures-none claims [] hash link clean found = absurd (ground (arith, found))
link_failures-none claims ((h, l) ∷ links) hash link clean found =
    ground (arith, clean, found, eq_iff h hash, link_failures-none claims links hash link)

-- A claim that names an address has the device key that all who name it have.
named-device :
    (claims : Dict String RecordingClaim) (key address device : String) (claim : RecordingClaim)
    → any (λ c. not (c.device_key == device)) (named_by address claims) ≡ false
    → get key claims ≡ some claim
    → claim.device_cert ≡ some address
    → claim.device_key ≡ device
unfolding get
named-device [] key address device claim same found cert = absurd (ground (arith, found))
named-device ((k, c) ∷ claims) key address device claim same found cert = ground (
  arith,
  same,
  found,
  cert,
  eq_iff claim.device_key device,
  ==_refl address,
  named-device claims key address device claim,
)

module _ (verify : String → Payload → String → Bool) (sha256 : String → String)
    (parse : String → Option Signed) (write : Signed → Option String)
    (parse_date : String → Option ℕ) (blob : Blob) (statements : List FetchedStatement) where
  -- A recording has a verdict, whatever its document lists.
  pub verify_recording_statements-total :
      is_some (verify_recording_statements parse_date verify sha256 parse write blob statements)
      ≡ true
  unfolding verify_recording_statements
  verify_recording_statements-total =
      verdict-total parse_date (gathered verify sha256 parse write parse_date blob statements) (
        missing_of parse_date verify sha256 parse write
          (gathered verify sha256 parse write parse_date blob statements)
          (unique verify sha256 parse write parse_date blob statements))

  abbrev pub provenance : Option RecordingProvenance
  provenance = verify_recording_statements parse_date verify sha256 parse write blob statements

  -- A recording is shown as verified only if its document lists, in canonical form under their own
  -- addresses, a claim for exactly its audio that the device key in it signed, and a receipt for that
  -- claim that a host key signed. What is shown of the take is what the claim says, the time is the
  -- receipt's, and the host is said to have recorded the take if and only if the keys are the same.
  pub verified_evidence :
      (c : ClaimedRecording) (at : String) (own_take : Bool)
      → provenance ≡ some (verified c at own_take)
      → (claim : RecordingClaim) × (r : HostReceipt) × (receipt_hash : String) × (ClaimEvidence
            verify sha256 parse write parse_date blob statements)
          r.claim claim
        × (ReceiptEvidence verify sha256 parse write parse_date blob statements) receipt_hash r
        × (at ≡ r.received_at)
        × (own_take ≡ (r.host_key == claim.device_key))
        × (c.device_key ≡ claim.device_key)
        × (c.started_at ≡ claim.started_at)
        × (c.ended_at ≡ claim.ended_at)
        × (c.session_id ≡ claim.session_id)
  unfolding verify_recording_statements claimed
  verified_evidence c at own_take shown =
      let missing =
        missing_of parse_date verify sha256 parse write
          (gathered verify sha256 parse write parse_date blob statements)
          (unique verify sha256 parse write parse_date blob statements) in
      let v =
        verdict-verified parse_date (gathered verify sha256 parse write parse_date blob statements)
          missing c at own_take shown in
      let r = v.1 in
      let claim = v.2 in
      let found =
        first_by_time-All parse_date
          (λ s.
            (hash : String) × (ReceiptEvidence verify sha256 parse write parse_date blob statements)
              hash s)
          (λ s. s.received_at)
          (receipts_of (gathered verify sha256 parse write parse_date blob statements)) r
          ((receipts-evidence verify sha256 parse write parse_date blob statements)
            (gathered verify sha256 parse write parse_date blob statements).receipts
            (backed verify sha256 parse write parse_date blob statements).receipts)
          v.3 in
      (
        claim,
        r,
        found.0,
        (claim-evidence verify sha256 parse write parse_date blob statements) r.claim claim (
            (backed verify sha256 parse write parse_date blob statements).claims r.claim claim v.4),
        found.1,
        v.6,
        v.7,
        ap (λ x. x.device_key) v.5,
        ap (λ x. x.started_at) v.5,
        ap (λ x. x.ended_at) v.5,
        ap (λ x. x.session_id) v.5,
      )

  -- A person is shown with a verified recording only if a certificate or a vouch that passed its
  -- check names them, and it is for the very device key that the recording is shown with.
  pub verified_person_evidence :
      (c : ClaimedRecording) (at : String) (own_take : Bool) (person : VerifiedPerson)
      → provenance ≡ some (verified c at own_take)
      → c.person ≡ some person
      → (address : String) × (link : DeviceLink) × (c.device_link ≡ some address)
        × Passed verify sha256 parse write blob
            (λ h b. IsListed h b statements)
            address
            (link_passed link)
        × (person ≡ verified_person link)
        × (link_device_key link ≡ c.device_key)
  unfolding verify_recording_statements claimed
  verified_person_evidence c at own_take person shown named =
      let missing =
        missing_of parse_date verify sha256 parse write
          (gathered verify sha256 parse write parse_date blob statements)
          (unique verify sha256 parse write parse_date blob statements) in
      let v =
        verdict-verified parse_date (gathered verify sha256 parse write parse_date blob statements)
          missing c at own_take shown in
      let r = v.1 in
      let claim = v.2 in
      let stated = ap (λ x. x.person) v.5 in
      let linked = ap (λ x. x.device_link) v.5 in
      elim (Option-cases claim.device_cert) [
        | inl bare ↦ absurd (ground (arith, bare, stated, named))
        | inr (address, cert) ↦
            elim (Option-cases
              (get address (gathered verify sha256 parse write parse_date blob statements).links)) [
                | inl unlisted ↦ absurd (ground (arith, cert, unlisted, stated, named))
                | inr (link, listed) ↦
                    let clean =
                      all_failures-none
                        (gathered verify sha256 parse write parse_date blob statements) v.0 in
                    let same =
                      link_failures-none
                        (gathered verify sha256 parse write parse_date blob statements).claims
                        (gathered verify sha256 parse write parse_date blob statements).links
                        address link clean.1 listed in
                    (
                      address,
                      link,
                      ground (arith, cert, listed, linked),
                      (backed verify sha256 parse write parse_date blob statements).links address
                          link listed,
                      ground (arith, cert, listed, stated, named),
                      sym (
                          ap (λ x. x.device_key) v.5
                          ∙ named-device
                              (gathered verify sha256 parse write parse_date blob statements).claims
                              r.claim address (link_device_key link) claim same v.4 cert),
                    )
              ]
      ]
