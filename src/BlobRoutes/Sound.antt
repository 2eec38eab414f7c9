-- ===== src/BlobRoutes/Sound.antt =====
-- blobHttp.ts and PutBlobChannel.ts: what a host's store holds as statements, whatever it is asked.
use tapes_monorepo.Base.{
  ℕ, String, true, List, ◌∷◌, ◌⊎◌, inl, inr, Option, none, some, ◌≡◌, refl, sym, subst, arith,
  text_eq, nat_eq, Bool-cases, Option-cases,
}
use tapes_monorepo.Statements.{
  RecordingClaim, HostReceipt, Payload, Signed, Problem, Check, check_recording_claim, a_claim,
  a_receipt, passes, fails,
}
use tapes_monorepo.BlobStore.{Bytes, Disk, record_receipt}
use tapes_monorepo.BlobStore.Ingested.{}
use tapes_monorepo.BlobStore.Refinement.{}
use tapes_monorepo.StatementUpload.{Reader, address_of}
use tapes_monorepo.StatementUpload.Bound.{is_genuine}
use tapes_monorepo.ClaimIngest.{
  Signer, store_statements, receipt_for, certificate_for, index_receipt, receipt_and_store,
  verify_claim_on_ingest,
}
use tapes_monorepo.BlobRoutes.{}
use tapes_monorepo.BlobRoutes.Vetted.{IsVettedStore, IsVettedStore-same}
use tapes_monorepo.BlobRoutes.Kept.{
  store_statements-IsVettedStore, certificate_for-AreGenuine, receipt_for-is_genuine,
}

check_cases :
    {A : Type 0} (c : Check A) → ((p : Problem) × (c ≡ fails p)) ⊎ ((a : A) × (c ≡ passes a))
check_cases (fails p) = inl (p, refl)
check_cases (passes a) = inr (a, refl)

-- Canonical JSON is read back; the host's key verifies the receipts that it signs, and none but those
-- that name it.
module _ (reader : Reader) (sha256 : Bytes → String) (signer : Signer)
    (reads : (s : Signed) (bytes : Bytes)
      → reader.write s ≡ some bytes
      → reader.parse bytes ≡ some s)
    (host_key : Option String)
    (signs : (key claim at : String)
      → host_key ≡ some key
      → let r : HostReceipt = record { claim = claim; received_at = at; host_key = key } in
        reader.verify key (a_receipt r) (signer.sign key (a_receipt r)) ≡ true)
    (own_receipts : (key : String) (r : HostReceipt) (signature : String)
      → host_key ≡ some key
      → reader.verify key (a_receipt r) signature ≡ true
      → r.host_key ≡ key) where
  open reader use {verify}

  abbrev Kept : Disk → Type 0
  Kept = IsVettedStore reader sha256

  index_receipt-Kept :
      (claim_hash : String) (receipt : Signed) (stored_hashes : List String) (d : Disk)
      → Kept d
      → Kept (index_receipt reader sha256 signer claim_hash receipt stored_hashes d)
  unfolding index_receipt record_receipt
  index_receipt-Kept claim_hash receipt stored_hashes d =
      IsVettedStore-same reader sha256 d
        (index_receipt reader sha256 signer claim_hash receipt stored_hashes d) (ground arith)
        (ground arith)

  receipt_and_store-Kept :
      (claim : Signed) (c : RecordingClaim) (claim_hash : String) (certificate : Option String)
      (received_at doc_url now : String) (d : Disk)
      → is_genuine reader sha256 claim ≡ true
      → Kept d
      → Kept
          (receipt_and_store reader sha256 signer claim c claim_hash host_key certificate
            received_at doc_url now d).0
  unfolding receipt_and_store
  receipt_and_store-Kept claim c claim_hash certificate received_at doc_url now d genuine vetted =
      let extra = certificate_for reader sha256 signer c certificate in
      let certified_extra =
        certificate_for-AreGenuine reader sha256 signer reads host_key signs own_receipts c
          certificate in
      let whole =
        receipt_and_store reader sha256 signer claim c claim_hash host_key certificate received_at
          doc_url now d in
      elim (Option-cases (receipt_for reader sha256 signer host_key claim_hash received_at d)) [
        | inl keyless ↦
            let same : whole.0
                ≡ (store_statements reader sha256 signer (claim ∷ extra) doc_url now d).0 =
              ground (arith, keyless) in
            subst Kept (sym same) (
              store_statements-IsVettedStore reader sha256 signer reads host_key signs own_receipts
                (claim ∷ extra) doc_url now d (genuine, certified_extra) vetted)
        | inr ((receipt, is_new), made) ↦
            let next =
              store_statements reader sha256 signer (claim ∷ receipt ∷ extra) doc_url now d in
            let kept =
              store_statements-IsVettedStore reader sha256 signer reads host_key signs own_receipts
                (claim ∷ receipt ∷ extra) doc_url now d
                (
                  genuine,
                  (
                    receipt_for-is_genuine reader sha256 signer reads host_key signs own_receipts
                        claim_hash received_at d receipt is_new made,
                    certified_extra,
                  ),
                )
                vetted in
            elim (Bool-cases is_new) [
              | inl fresh ↦
                  let same : whole.0
                      ≡ index_receipt reader sha256 signer claim_hash receipt next.1 next.0 =
                    ground (arith, made, fresh) in
                  subst Kept (sym same) (index_receipt-Kept claim_hash receipt next.1 next.0 kept)
              | inr old ↦
                  let same : whole.0 ≡ next.0 = ground (arith, made, old) in
                  subst Kept (sym same) kept
            ]
      ]

  check_recording_claim-is_genuine :
      (p : Payload) (signature hash : String) (size : ℕ) (c : RecordingClaim)
      → let s : Signed = record { payload = p; signature = signature } in
        check_recording_claim verify s hash size ≡ passes c → is_genuine reader sha256 s ≡ true
  unfolding check_recording_claim
  check_recording_claim-is_genuine (a_claim a) signature hash size c h = ground (arith, h)
  check_recording_claim-is_genuine p signature hash size c h = absurd (ground (arith, h))

  pub verify_claim_on_ingest-Kept :
      (encoded : Option String) (hash : String) (size : ℕ) (certificate : Option String)
      (received_at doc_url now : String) (d : Disk)
      → Kept d
      → Kept
          (verify_claim_on_ingest reader sha256 signer encoded
            (hash, size)
            host_key
            certificate
            received_at
            doc_url
            now
            d).0
  unfolding verify_claim_on_ingest
  verify_claim_on_ingest-Kept none hash size certificate received_at doc_url now d vetted = vetted
  verify_claim_on_ingest-Kept (some text) hash size certificate received_at doc_url now d vetted =
      let whole =
        verify_claim_on_ingest reader sha256 signer (some text) (hash, size) host_key certificate
          received_at doc_url now d in
      let unchanged : whole.0 ≡ d → Kept whole.0 = λ same. subst Kept (sym same) vetted in
      elim (Option-cases (signer.decode text)) [
        | inl unread ↦ unchanged (ground (arith, unread))
        | inr (s, read) ↦ elim (check_cases (check_recording_claim verify s hash size)) [
          | inl (p, failed) ↦ unchanged (ground (arith, read, failed))
          | inr (c, passed) ↦ elim (Option-cases (address_of reader sha256 s)) [
            | inl nowhere ↦ unchanged (ground (arith, read, passed, nowhere))
            | inr (claim_hash, here) ↦
                let same : whole.0
                    ≡ (receipt_and_store reader sha256 signer s c claim_hash host_key certificate
                        received_at doc_url now d).0 =
                  ground (arith, read, passed, here) in
                subst Kept (sym same) (
                  receipt_and_store-Kept s c claim_hash certificate received_at doc_url now d
                    (check_recording_claim-is_genuine s.payload s.signature hash size c passed)
                    vetted)
          ]
        ]
      ]
