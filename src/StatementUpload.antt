-- ===== src/StatementUpload.antt =====
-- What a host asks of a signed statement that is uploaded (apps/electron-client/src/
-- statementUpload.ts), against what its store holds.
pub mod Bound
use tapes_monorepo.Base.{
  ℕ, ◌*◌, String, Bool, false, ◌&&◌, ◌⊎◌, inl, inr, Option, none, some, if◌then◌else◌, text_eq,
  nat_eq, ◌==◌, is_some, list_eq, any, get,
}
use tapes_monorepo.Statements.{
  Payload, Signed, Problem, Check, DeviceLink, link_device_key, revocation_covers,
  check_recording_claim, check_host_receipt, check_session_record, check_device_certificate,
  check_device_vouch, check_device_revocation, a_claim, a_receipt, a_session, a_certificate,
  a_vouch, a_revocation, misshapen, malformed, passes, fails, certified, vouched_for,
}
use tapes_monorepo.BlobStore.{Bytes, Disk, has, stat_blob, BlobMeta}

abbrev pub max_statement_bytes : ℕ
max_statement_bytes = 64 * 1024

abbrev pub statement_mime_type : String
statement_mime_type = "application/json"

pub data UploadProblem : Type 0 where
  check_failed : Problem → UploadProblem
  not_canonical unknown_type audio_missing claim_missing : UploadProblem
  certificate_mismatch certificate_missing revocation_not_permitted : UploadProblem

pub data StatementCheck : Type 0 where
  accepted : StatementCheck
  refused : UploadProblem → StatementCheck

-- `statementType`, where it is one that a recording can list
pub data StatementType : Type 0 where
  claim_type receipt_type session_type certificate_type : StatementType
  vouch_type revocation_type other_type : StatementType

-- What `parseSignedStatement` reads, and what it leaves open: the type of a payload of another shape
-- than its type's, and the hash of the blob in one of a claim. `write` is `statementBytes`, which can
-- throw; `verify` is `verifyStatement`.
pub record Reader : Type 0 where
  pub parse : Bytes → Option Signed
  pub write : Signed → Option Bytes
  pub verify : String → Payload → String → Bool
  pub loose_type : Signed → StatementType
  pub loose_hash : Signed → Option String

abbrev pub upload_check : {A : Type 0} → Check A → (A → StatementCheck) → StatementCheck
upload_check (passes a) k = k a
upload_check (fails p) k = refused (check_failed p)

module _ (reader : Reader) (sha256 : Bytes → String) where
  open reader use {parse, write, verify, loose_type, loose_hash}

  abbrev pub type_of : Signed → StatementType
  type_of s = elim s.payload [
    | a_claim c ↦ claim_type
    | a_receipt r ↦ receipt_type
    | a_session r ↦ session_type
    | a_certificate c ↦ certificate_type
    | a_vouch v ↦ vouch_type
    | a_revocation r ↦ revocation_type
    | misshapen ↦ loose_type s
    | _ ↦ other_type
  ]

  -- `statementAddress`
  abbrev pub address_of : Signed → Option String
  address_of s = elim (write s) [ none ↦ none | some bytes ↦ some (sha256 bytes) ]

  -- `checkDeviceLink`
  unfoldable pub check_device_link : Signed → UploadProblem ⊎ DeviceLink
  unfolding check_device_certificate check_device_vouch
  check_device_link s = elim (type_of s) [
    | certificate_type ↦ elim (check_device_certificate verify s) [
      | passes c ↦ inr (certified c)
      | fails p ↦ inl (check_failed p)
    ]
    | vouch_type ↦ elim (check_device_vouch verify s) [
      | passes v ↦ inr (vouched_for v)
      | fails p ↦ inl (check_failed p)
    ]
    | _ ↦ inl unknown_type
  ]

  unfoldable pub read_stored_statement : String → Disk → Option Signed
  unfolding has
  read_stored_statement hash d =
      if has hash d
      then elim (get hash d.objects) [ none ↦ none | some bytes ↦ parse bytes ]
      else none

  -- the statement of an address that is stored as one
  abbrev pub stored_statement : String → Disk → Option Signed
  stored_statement address d = elim (stat_blob address d) [
    | none ↦ none
    | some meta ↦
        if meta.mime_type == statement_mime_type then read_stored_statement address d else none
  ]

  unfoldable pub stored_claim : String → Disk → Option Signed
  unfolding stat_blob read_stored_statement
  stored_claim address d = elim (stored_statement address d) [
    | none ↦ none
    | some s ↦ elim (type_of s) [ claim_type ↦ some s | _ ↦ none ]
  ]

  unfoldable pub stored_link : String → Disk → Option DeviceLink
  unfolding stat_blob read_stored_statement check_device_link
  stored_link address d = elim (stored_statement address d) [
    | none ↦ none
    | some s ↦ elim (check_device_link s) [ inl p ↦ none | inr link ↦ some link ]
  ]

  unfoldable pub holds_claim : String → Disk → Bool
  unfolding stored_claim
  holds_claim address d = is_some (stored_claim address d)

  unfoldable pub check_claim : Signed → Disk → StatementCheck
  unfolding stat_blob check_recording_claim
  check_claim s d =
      let hash : Option String = elim s.payload [
        | a_claim c ↦ some c.blob.hash
        | _ ↦ loose_hash s
      ] in
      let held : Option BlobMeta = elim hash [ none ↦ none | some h ↦ stat_blob h d ] in
      elim held [
        | none ↦ refused audio_missing
        | some audio ↦
            upload_check (check_recording_claim verify s audio.hash audio.size) (λ c. accepted)
      ]

  unfoldable pub check_receipt : Signed → Disk → StatementCheck
  unfolding check_host_receipt holds_claim
  check_receipt s d =
      upload_check (check_host_receipt verify s)
        (λ r. if holds_claim r.claim d then accepted else refused claim_missing)

  unfoldable pub check_session : Signed → Disk → StatementCheck
  unfolding check_session_record holds_claim
  check_session s d = upload_check (check_session_record verify s) (λ r.
      if any (λ address. holds_claim address d) r.claims then accepted else refused claim_missing)

  -- whether a claim names the link under its address, for its device key
  abbrev pub names_link : Signed → Signed → DeviceLink → Bool
  names_link claim s link = elim claim.payload [
    | a_claim c ↦
        elim c.device_cert [
          | none ↦ false
          | some cert ↦ elim (address_of s) [ none ↦ false | some a ↦ cert == a ]
        ]
        && c.device_key == link_device_key link
    | _ ↦ false
  ]

  unfoldable pub check_device_link_upload : Signed → Disk → Option String → StatementCheck
  unfolding check_device_link stored_claim
  check_device_link_upload s d for_claim = elim (check_device_link s) [
    | inl p ↦ refused p
    | inr link ↦
        let named : Option Signed = elim for_claim [
          | none ↦ none
          | some address ↦ if address == "" then none else stored_claim address d
        ] in
        elim named [
          | none ↦ refused claim_missing
          | some claim ↦ if names_link claim s link then accepted else refused certificate_mismatch
        ]
  ]

  unfoldable pub check_revocation_upload : Signed → Disk → StatementCheck
  unfolding check_device_revocation stored_link revocation_covers
  check_revocation_upload s d = upload_check (check_device_revocation verify s) (λ r.
      elim (stored_link r.device_link d) [
        | none ↦ refused certificate_missing
        | some link ↦
            if revocation_covers r link r.device_link
            then accepted
            else refused revocation_not_permitted
      ])

  abbrev pub check_by_type : Signed → Disk → Option String → StatementCheck
  check_by_type s d for_claim = elim (type_of s) [
    | claim_type ↦ check_claim s d
    | receipt_type ↦ check_receipt s d
    | session_type ↦ check_session s d
    | certificate_type ↦ check_device_link_upload s d for_claim
    | vouch_type ↦ check_device_link_upload s d for_claim
    | revocation_type ↦ check_revocation_upload s d
    | other_type ↦ refused unknown_type
  ]

  unfoldable pub check_uploaded_statement : Bytes → Disk → Option String → StatementCheck
  unfolding check_claim check_receipt check_session check_device_link_upload check_revocation_upload
  check_uploaded_statement bytes d for_claim = elim (parse bytes) [
    | none ↦ refused (check_failed malformed)
    | some s ↦ elim (write s) [
      | none ↦ refused (check_failed malformed)
      | some canonical ↦
          if canonical == bytes then check_by_type s d for_claim else refused not_canonical
    ]
  ]
