-- ===== src/BlobRoutes/Order.antt =====
-- statementUpload.ts: a statement, and those that depend on it.
use tapes_monorepo.Base.{
  ◌≤◌, String, Bool, true, false, List, [], ◌∷◌, append-nil, inl, inr, Option, some, ◌≡◌, refl, ap,
  arith, eq_iff, text_eq, nat_eq, ◌==◌, ==_refl, Bool-cases, list_eq, length, any, includes,
  get-set,
}
use tapes_monorepo.Statements.{
  DeviceRevocation, HostReceipt, SessionRecord, Signed, DeviceLink, revocation_covers,
  check_host_receipt, check_session_record, check_device_revocation, passes,
}
use tapes_monorepo.BlobStore.{Bytes, Disk, is_valid_blob_hash, has, stat_blob, finish_ingest}
use tapes_monorepo.BlobStore.Ingested.{finish_ingest-objects, new_meta, finish_ingest-metas}
use tapes_monorepo.StatementUpload.{
  max_statement_bytes, StatementType, Reader, type_of, check_device_link, read_stored_statement,
  stored_statement, stored_claim, stored_link, holds_claim, check_receipt, check_session,
  names_link, check_device_link_upload, check_revocation_upload, check_by_type,
  check_uploaded_statement, accepted, claim_type, receipt_type, session_type, certificate_type,
  vouch_type, revocation_type,
}
use tapes_monorepo.ClaimIngest.{statement_options, Signer}
use tapes_monorepo.BlobRoutes.{handle_statement_upload}

abbrev is_link_type : StatementType → Bool
is_link_type certificate_type = true
is_link_type vouch_type = true
is_link_type t = false

valid_is_some : (address : String) → is_valid_blob_hash address ≡ true → (address == "") ≡ false
unfolding is_valid_blob_hash
valid_is_some address valid = elim (Bool-cases (address == "")) [
  | inr named ↦ named
  | inl empty ↦
      let same : address ≡ "" = ground (arith, eq_iff address "", empty) in
      let refused : is_valid_blob_hash "" ≡ false = refl in
      absurd (ground (arith, valid, ap is_valid_blob_hash same, refused))
]

module _ (reader : Reader) (sha256 : Bytes → String) (signer : Signer)
    (names : (bytes : Bytes) → is_valid_blob_hash (sha256 bytes) ≡ true) where
  open reader use {parse, write, verify}

  -- the store after an upload of a statement
  abbrev pub uploaded : Bytes → String → Option String → String → Disk → Disk
  uploaded bytes doc_url for_claim now d =
      (handle_statement_upload reader sha256 signer (bytes ∷ []) doc_url for_claim now d).0

  -- A statement that is accepted, and whose bytes were not there before, is stored as one.
  pub stored_statement-uploaded :
      (bytes : Bytes) (doc_url now : String) (for_claim : Option String) (d : Disk) (s : Signed)
      → length bytes ≤ max_statement_bytes
      → has (sha256 bytes) d ≡ false
      → parse bytes ≡ some s
      → check_uploaded_statement reader sha256 bytes d for_claim ≡ accepted
      → stored_statement reader sha256 (sha256 bytes) (uploaded bytes doc_url for_claim now d)
        ≡ some s
  unfolding handle_statement_upload stat_blob read_stored_statement
  stored_statement-uploaded bytes doc_url now for_claim d s short new read passed =
      let options = statement_options doc_url in
      let after = (finish_ingest sha256 false bytes options now d).0 in
      let fresh = new_meta sha256 bytes options now in
      let hash = sha256 bytes in
      let same : uploaded bytes doc_url for_claim now d ≡ after =
        ground (arith, passed, short, append-nil bytes, new) in
      rw same (
        ground (
          arith,
          read,
          names bytes,
          finish_ingest-objects sha256 bytes options now d false,
          finish_ingest-metas sha256 bytes options now d false,
          get-set hash hash bytes d.objects,
          get-set hash hash fresh d.metas,
          ==_refl hash,
        ))

  -- A statement that is genuine, and that depends on another only, which stands under an address: a
  -- receipt or a session of that claim, a certificate or a vouch that this claim names, or a
  -- revocation of that certificate or vouch.
  pub data Follows (address : String) (first : Signed) : Signed → Option String → Type 0 where
    its_receipt :
        {t : Signed} {for_claim : Option String} (r : HostReceipt)
        → type_of reader sha256 first ≡ claim_type
        → type_of reader sha256 t ≡ receipt_type
        → check_host_receipt verify t ≡ passes r
        → r.claim ≡ address
        → Follows address first t for_claim
    its_session :
        {t : Signed} {for_claim : Option String} (r : SessionRecord)
        → type_of reader sha256 first ≡ claim_type
        → type_of reader sha256 t ≡ session_type
        → check_session_record verify t ≡ passes r
        → includes r.claims address ≡ true
        → Follows address first t for_claim
    its_link :
        {t : Signed} (link : DeviceLink)
        → type_of reader sha256 first ≡ claim_type
        → is_link_type (type_of reader sha256 t) ≡ true
        → check_device_link reader sha256 t ≡ inr link
        → names_link reader sha256 first t link ≡ true
        → Follows address first t (some address)
    its_revocation :
        {t : Signed} {for_claim : Option String} (link : DeviceLink) (r : DeviceRevocation)
        → check_device_link reader sha256 first ≡ inr link
        → type_of reader sha256 t ≡ revocation_type
        → check_device_revocation verify t ≡ passes r
        → r.device_link ≡ address
        → revocation_covers r link address ≡ true
        → Follows address first t for_claim

  any_holds :
      (test : String → Bool) (address : String) (xs : List String)
      → includes xs address ≡ true
      → test address ≡ true
      → any test xs ≡ true
  any_holds test address [] there holds = ground (arith, there)
  any_holds test address (x ∷ xs) there holds =
      ground (arith, there, holds, eq_iff x address, any_holds test address xs)

  pub Follows-accepted :
      (address : String) (first t : Signed) (for_claim : Option String) (d : Disk)
      → stored_statement reader sha256 address d ≡ some first
      → is_valid_blob_hash address ≡ true
      → Follows address first t for_claim
      → check_by_type reader sha256 t d for_claim ≡ accepted
  unfolding check_receipt check_session check_device_link_upload check_revocation_upload holds_claim
      stored_claim stored_link
  Follows-accepted address first t for_claim d there valid
        (its_receipt r claims kind checked names_it) =
      ground (arith, there, claims, kind, checked, names_it)
  Follows-accepted address first t for_claim d there valid
        (its_session r claims kind checked lists) =
      let held : holds_claim reader sha256 address d ≡ true = ground (arith, there, claims) in
      ground (
        arith,
        kind,
        checked,
        any_holds (λ a. holds_claim reader sha256 a d) address r.claims lists held,
      )
  Follows-accepted address first t for_claim d there valid
        (its_link link claims kind checked named) =
      ground (arith, there, claims, kind, checked, named, valid_is_some address valid)
  Follows-accepted address first t for_claim d there valid
        (its_revocation link r reads kind checked withdraws covers) =
      ground (arith, there, reads, kind, checked, withdraws, covers)
