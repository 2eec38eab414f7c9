-- ===== src/Tests/Statements.antt =====
-- recordingProvenance.ts on a claim, its certificate and a receipt.
use tapes_monorepo.Base.{
  ℕ, String, false, List, [], ◌∷◌, Option, none, some, ◌≡◌, refl, if◌then◌else◌, text_eq, nat_eq,
  ◌==◌, get, set,
}
use tapes_monorepo.Statements.{
  Blob, RecordingClaim, DeviceCertificate, HostReceipt, Payload, Signed, DeviceLink,
  link_device_key, check_recording_claim, check_host_receipt, check_device_certificate, a_claim,
  a_receipt, a_certificate,
}
use tapes_monorepo.Provenance.{
  FetchedStatement, unique_of, check_typed, check_statement, all_failures, link_passed,
}
use tapes_monorepo.Provenance.Verdict.{
  ClaimedRecording, verified_person, first_by_time, verify_recording_statements, via_certificate,
  verified,
}
use tapes_monorepo.Provenance.Backing.{IsListed, Passed}
use tapes_monorepo.Provenance.Evidence.{ClaimEvidence, ReceiptEvidence}
use tapes_monorepo.Provenance.Verified.{provenance, verified_evidence, verified_person_evidence}
use tapes_monorepo.Tests.People.{trusting}

abbrev audio : Blob
audio = record { hash = "audio"; size = 3; mime_type = "audio/wav" }

abbrev take : RecordingClaim
take = record {
  blob = audio;
  started_at = "1";
  ended_at = "2";
  session_id = "unsessioned";
  device_key = "phone";
  device_cert = some "certificate";
}

abbrev certificate : DeviceCertificate
certificate = record {
  person_key = "sam";
  device_key = "phone";
  device_label = "Phone";
  issued_at = "0";
}

abbrev receipt : HostReceipt
receipt = record { claim = "claim"; received_at = "3"; host_key = "host" }

abbrev sign_as : Payload → Signed
sign_as p = record { payload = p; signature = "" }

-- Bytes that are their own hash.
abbrev same_text : String → String
same_text bytes = bytes

abbrev parse : String → Option Signed
parse bytes =
    if bytes == "claim"
    then some (sign_as (a_claim take))
    else if bytes == "certificate"
    then some (sign_as (a_certificate certificate))
    else some (sign_as (a_receipt receipt))

abbrev write : Signed → Option String
write s = elim s.payload [
  | a_claim c ↦ some "claim"
  | a_certificate c ↦ some "certificate"
  | _ ↦ some "receipt"
]

abbrev parse_date : String → Option ℕ
parse_date s = some 3

abbrev listed : List FetchedStatement
listed =
    ("receipt", some "receipt") ∷ ("claim", some "claim") ∷ ("certificate", some "certificate") ∷ []

abbrev shown : ClaimedRecording
shown = record {
  device_key = "phone";
  started_at = "1";
  ended_at = "2";
  session_id = "unsessioned";
  session = none;
  person = some (via_certificate "sam" "Phone" "0");
  device_link = some "certificate";
  revocation = none;
}

verified_example :
    provenance trusting same_text parse write parse_date audio listed
    ≡ some (verified shown "3" false)
unfolding verify_recording_statements check_typed check_recording_claim check_host_receipt
    check_device_certificate unique_of set get first_by_time all_failures check_statement
verified_example = refl

verified_evidence_example :
    (claim : RecordingClaim) × (r : HostReceipt) × (receipt_hash : String) × ClaimEvidence trusting
      same_text parse write parse_date audio listed r.claim claim
    × ReceiptEvidence trusting same_text parse write parse_date audio listed receipt_hash r
    × ("3" ≡ r.received_at)
    × (false ≡ (r.host_key == claim.device_key))
    × (shown.device_key ≡ claim.device_key)
    × (shown.started_at ≡ claim.started_at)
    × (shown.ended_at ≡ claim.ended_at)
    × (shown.session_id ≡ claim.session_id)
verified_evidence_example =
    verified_evidence trusting same_text parse write parse_date audio listed shown "3" false
      verified_example

verified_person_evidence_example :
    (address : String) × (link : DeviceLink) × (shown.device_link ≡ some address)
    × Passed trusting same_text parse write audio
        (λ h b. IsListed h b listed)
        address
        (link_passed link)
    × (via_certificate "sam" "Phone" "0" ≡ verified_person link)
    × (link_device_key link ≡ shown.device_key)
verified_person_evidence_example =
    verified_person_evidence trusting same_text parse write parse_date audio listed shown "3" false
      (via_certificate "sam" "Phone" "0") verified_example refl
