-- ===== src/Statements.antt =====
-- Signed statements and what each check asks of them (packages/provenance/lib: types.ts,
-- hostReceipt.ts, deviceCertificate.ts, deviceVouch.ts, deviceRevocation.ts).
use tapes_monorepo.Base.{
  ℕ, String, Bool, false, not, ◌||◌, List, Option, if◌then◌else◌, text_eq, nat_eq, ◌==◌,
}

pub record Blob : Type 0 where
  pub hash : String
  pub size : ℕ
  pub mime_type : String

pub record RecordingClaim : Type 0 where
  pub blob : Blob
  pub started_at : String
  pub ended_at : String
  pub session_id : String
  pub device_key : String
  pub device_cert : Option String

pub record DeviceCertificate : Type 0 where
  pub person_key : String
  pub device_key : String
  pub device_label : String
  pub issued_at : String

pub record JoinRequest : Type 0 where
  pub person_key : String
  pub person_name : String
  pub certificate : String
  pub challenge : String

pub record VouchRequest : Type 0 where
  pub device_key : String
  pub person_key : String
  pub device_label : String
  pub requested_at : String

pub data VouchMethod : Type 0 where
  by_operator by_pin : VouchMethod

pub record DeviceVouch : Type 0 where
  pub host_key : String
  pub host_label : String
  pub person_key : String
  pub person_name : String
  pub device_key : String
  pub device_label : String
  pub vouch_method : VouchMethod
  pub first_certificate : String
  pub vouched_at : String

pub data RevocationSigner : Type 0 where
  by_person by_host : RevocationSigner

pub data RevocationReason : Type 0 where
  lost retired wrong_person : RevocationReason

pub record DeviceRevocation : Type 0 where
  pub signer_key : String
  pub signed_by : RevocationSigner
  pub device_key : String
  pub device_link : String
  pub reason : RevocationReason
  pub revoked_at : String

pub record HostReceipt : Type 0 where
  pub claim : String
  pub received_at : String
  pub host_key : String

pub record SessionSpan : Type 0 where
  pub joined_at : String
  pub left_at : String

pub record SessionDevice : Type 0 where
  pub device_key : String
  pub label : Option String
  pub spans : List SessionSpan

pub record SessionRecord : Type 0 where
  pub session_id : String
  pub opened_at : String
  pub closed_at : String
  pub devices : List SessionDevice
  pub claims : List String
  pub host_key : String

-- A payload by its `type` and shape. A payload of a type that a recording can list, but of another
-- shape, is `misshapen`; one of any other type is `other`.
pub data Payload : Type 0 where
  a_claim : RecordingClaim → Payload
  a_receipt : HostReceipt → Payload
  a_session : SessionRecord → Payload
  a_certificate : DeviceCertificate → Payload
  a_vouch : DeviceVouch → Payload
  a_revocation : DeviceRevocation → Payload
  a_join : JoinRequest → Payload
  a_vouch_request : VouchRequest → Payload
  misshapen other : Payload

-- `Signed<unknown>`
pub record Signed : Type 0 where
  pub payload : Payload
  pub signature : String

pub data Problem : Type 0 where
  malformed bad_signature hash_mismatch size_mismatch : Problem

pub data Check {ℓ} (A : Type ℓ) : Type ℓ where
  passes : A → Check A
  fails : Problem → Check A

-- What a claim's `deviceCert` can name.
pub data DeviceLink : Type 0 where
  certified : DeviceCertificate → DeviceLink
  vouched_for : DeviceVouch → DeviceLink

abbrev pub link_device_key : DeviceLink → String
link_device_key (certified c) = c.device_key
link_device_key (vouched_for v) = v.device_key

abbrev pub link_person_key : DeviceLink → String
link_person_key (certified c) = c.person_key
link_person_key (vouched_for v) = v.person_key

-- `revocationCovers`
unfoldable pub revocation_covers : DeviceRevocation → DeviceLink → String → Bool
revocation_covers r link link_address =
    if not (r.device_link == link_address) || not (r.device_key == link_device_key link)
    then false
    else elim r.signed_by [
      | by_person ↦ r.signer_key == link_person_key link
      | by_host ↦ elim link [ certified c ↦ false | vouched_for v ↦ r.signer_key == v.host_key ]
    ]

-- `verify` is `verifyStatement`: whether the key made the signature over the payload.
module _ (verify : String → Payload → String → Bool) where
  abbrev signed_by_key : Signed → String → Bool
  signed_by_key s key = verify key s.payload s.signature

  -- the end of each check
  abbrev pub checked_with : {A : Type 0} → Signed → String → A → Check A
  checked_with s key a = if signed_by_key s key then passes a else fails bad_signature

  -- `received` is the hash and the size of the bytes that arrived.
  unfoldable pub check_recording_claim : Signed → String → ℕ → Check RecordingClaim
  check_recording_claim s hash size = elim s.payload [
    | a_claim c ↦
        if not (c.blob.hash == hash)
        then fails hash_mismatch
        else if not (c.blob.size == size)
        then fails size_mismatch
        else checked_with s c.device_key c
    | _ ↦ fails malformed
  ]

  unfoldable pub check_host_receipt : Signed → Check HostReceipt
  check_host_receipt s = elim s.payload [
    | a_receipt r ↦ checked_with s r.host_key r
    | _ ↦ fails malformed
  ]

  unfoldable pub check_session_record : Signed → Check SessionRecord
  check_session_record s = elim s.payload [
    | a_session r ↦ checked_with s r.host_key r
    | _ ↦ fails malformed
  ]

  unfoldable pub check_device_certificate : Signed → Check DeviceCertificate
  check_device_certificate s = elim s.payload [
    | a_certificate c ↦ checked_with s c.person_key c
    | _ ↦ fails malformed
  ]

  unfoldable pub check_device_vouch : Signed → Check DeviceVouch
  check_device_vouch s = elim s.payload [
    | a_vouch v ↦ checked_with s v.host_key v
    | _ ↦ fails malformed
  ]

  unfoldable pub check_device_revocation : Signed → Check DeviceRevocation
  check_device_revocation s = elim s.payload [
    | a_revocation r ↦ checked_with s r.signer_key r
    | _ ↦ fails malformed
  ]

  unfoldable pub check_join_request : Signed → Check JoinRequest
  check_join_request s = elim s.payload [
    | a_join r ↦ checked_with s r.person_key r
    | _ ↦ fails malformed
  ]

  unfoldable pub check_vouch_request : Signed → Check VouchRequest
  check_vouch_request s = elim s.payload [
    | a_vouch_request r ↦ checked_with s r.device_key r
    | _ ↦ fails malformed
  ]
