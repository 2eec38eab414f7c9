-- ===== src/Provenance/Verdict.antt =====
-- recordingProvenance.ts: the verdict on what was gathered.
use tapes_monorepo.Base.{
  ℕ, String, Bool, true, false, not, List, [], ◌∷◌, ◌++◌, map, Option, none, some, if◌then◌else◌,
  ltb, text_eq, nat_eq, ◌==◌, is_some, length, get_elem?, filter, Dict, values, get,
}
use tapes_monorepo.Statements.{
  Blob, RecordingClaim, DeviceVouch, RevocationSigner, RevocationReason, DeviceRevocation,
  HostReceipt, SessionSpan, SessionRecord, Payload, Signed, DeviceLink, revocation_covers,
  certified, vouched_for,
}
use tapes_monorepo.Provenance.{
  StatementProblem, FetchedStatement, Gathered, nothing_gathered, unique_of, gather, all_failures,
  named_addresses,
}

pub data VerifiedPerson : Type 0 where
  via_certificate : (person_key device_label issued_at : String) → VerifiedPerson
  via_vouch : DeviceVouch → VerifiedPerson

pub record RevokedDeviceLink : Type 0 where
  pub signed_by : RevocationSigner
  pub signer_key : String
  pub reason : RevocationReason
  pub revoked_at : String
  pub received_before_revocation : Bool

pub record VerifiedSession : Type 0 where
  pub opened_at : String
  pub closed_at : String
  pub host_key : String
  pub devices : List (String × List SessionSpan)

pub record ClaimedRecording : Type 0 where
  pub device_key : String
  pub started_at : String
  pub ended_at : String
  pub session_id : String
  pub session : Option VerifiedSession
  pub person : Option VerifiedPerson
  pub device_link : Option String
  pub revocation : Option RevokedDeviceLink

pub data RecordingProvenance : Type 0 where
  verified :
      ClaimedRecording → (received_at : String) → (recorded_by_host : Bool) → RecordingProvenance
  device_only : ClaimedRecording → RecordingProvenance
  unverified : RecordingProvenance
  failed : List (String × StatementProblem) → RecordingProvenance
  unavailable : List String → RecordingProvenance

unfoldable pub verified_person : DeviceLink → VerifiedPerson
verified_person (certified c) = via_certificate c.person_key c.device_label c.issued_at
verified_person (vouched_for v) = via_vouch v

unfoldable pub verified_session : SessionRecord → VerifiedSession
verified_session r = record {
  opened_at = r.opened_at;
  closed_at = r.closed_at;
  host_key = r.host_key;
  devices = map (λ d. (d.device_key, d.spans)) r.devices;
}

abbrev pub receipts_of : Gathered → List HostReceipt
receipts_of g = map (λ (hash, r). r) g.receipts

-- `parse_date` is `Date.parse`.
module _ (parse_date : String → Option ℕ) where
  -- `timeOf(a) < timeOf(b)`, where a time that does not parse is infinite
  unfoldable pub is_before : String → String → Bool
  is_before a b = elim (parse_date a) [
    | none ↦ false
    | some t ↦ elim (parse_date b) [ none ↦ true | some u ↦ ltb t u ]
  ]

  -- `[...].sort((a, b) => timeOf(a) - timeOf(b))[0]`: the sort is stable, so the first of the least
  unfoldable pub first_by_time : {A : Type 0} → (A → String) → List A → Option A
  unfolding is_before
  first_by_time at [] = none
  first_by_time at (x ∷ xs) =
      let rest = first_by_time at xs in
      elim rest [ none ↦ some x | some y ↦ if is_before (at y) (at x) then some y else some x ]

  unfoldable pub first_revocation :
      String → DeviceLink → Dict String DeviceRevocation → Option DeviceRevocation
  unfolding first_by_time
  first_revocation link_address link revocations =
      first_by_time (λ r. r.revoked_at)
        (filter (λ r. revocation_covers r link link_address) (values revocations))

  unfoldable pub revoked_device_link : DeviceRevocation → Option String → RevokedDeviceLink
  revoked_device_link r received_at = record {
    signed_by = r.signed_by;
    signer_key = r.signer_key;
    reason = r.reason;
    revoked_at = r.revoked_at;
    received_before_revocation = elim received_at [
      | none ↦ false
      | some at ↦ elim (parse_date at) [
        | none ↦ false
        | some received ↦ elim (parse_date r.revoked_at) [
          | none ↦ false
          | some ended ↦ ltb received ended
        ]
      ]
    ];
  }

  -- `claimed`, with `earliest?.receivedAt`
  unfoldable pub claimed : Gathered → Option String → RecordingClaim → ClaimedRecording
  unfolding verified_person verified_session first_revocation revoked_device_link
  claimed g received_at c =
      let link : Option DeviceLink = elim c.device_cert [
        | none ↦ none
        | some address ↦ get address g.links
      ] in
      record {
        device_key = c.device_key;
        started_at = c.started_at;
        ended_at = c.ended_at;
        session_id = c.session_id;
        session = elim (get_elem? g.sessions 0) [
          | none ↦ none
          | some (hash, r) ↦ some (verified_session r)
        ];
        person = elim link [ none ↦ none | some l ↦ some (verified_person l) ];
        device_link = elim link [ none ↦ none | some l ↦ c.device_cert ];
        revocation = elim link [
          | none ↦ none
          | some l ↦ elim c.device_cert [
            | none ↦ none
            | some address ↦ elim (first_revocation address l g.revocations) [
              | none ↦ none
              | some r ↦ some (revoked_device_link r received_at)
            ]
          ]
        ];
      }

  -- With a claim that is not there (`claims.get(earliest.claim)!`) the code throws, and there is no
  -- verdict.
  unfoldable pub verdict : Gathered → List String → Option RecordingProvenance
  unfolding claimed
  verdict g missing =
      if not (length (all_failures g) == 0)
      then some (failed (all_failures g))
      else if not (length missing == 0)
      then some (unavailable missing)
      else elim (first_by_time (λ r. r.received_at) (receipts_of g)) [
        | some earliest ↦ elim (get earliest.claim g.claims) [
          | none ↦ none
          | some c ↦ some (
              verified (claimed g (some earliest.received_at) c) earliest.received_at
                (earliest.host_key == c.device_key))
        ]
        | none ↦ elim (get_elem? (values g.claims) 0) [
          | none ↦ some unverified
          | some c ↦ some (device_only (claimed g none c))
        ]
      ]

  module _ (verify : String → Payload → String → Bool) (sha256 : String → String)
      (parse : String → Option Signed) (write : Signed → Option String) where
    -- `missing`: what could not be fetched, and what claims name that is not listed
    unfoldable pub missing_of : Gathered → Dict String (Option String) → List String
    unfolding named_addresses
    missing_of g unique =
        g.missing
        ++ filter (λ address. not (is_some (get address unique))) (named_addresses g.claims [])

    unfoldable pub verify_recording_statements :
        Blob → List FetchedStatement → Option RecordingProvenance
    unfolding gather missing_of verdict
    verify_recording_statements blob statements =
        let unique = unique_of statements [] in
        let g = gather verify sha256 parse write blob unique nothing_gathered in
        verdict g (missing_of g unique)
