-- ===== src/BlobRoutes/Uploads.antt =====
-- blobHttp.ts and PutBlobChannel.ts: an upload keeps the store's statements checked.
use tapes_monorepo.Base.{
  ℕ, String, true, not, ◌&&◌, List, [], ◌∷◌, append-nil, ◌≢◌, ◌⊎◌, inl, inr, Option, none, some,
  ◌≡◌, refl, sym, subst, arith, eq_iff, if◌then◌else◌, leb, text_eq, nat_eq, ◌==◌, Bool-cases,
  Option-cases, is_some,
}
use tapes_monorepo.Statements.{HostReceipt, Signed, a_receipt}
use tapes_monorepo.BlobStore.{
  Bytes, BlobMeta, Disk, IngestOptions, read_chunks, LinkOutcome, ingest_stream, ingest_file,
  total_bytes,
}
use tapes_monorepo.BlobStore.Refinement.{}
use tapes_monorepo.StatementUpload.{
  max_statement_bytes, statement_mime_type, UploadProblem, StatementCheck, Reader,
  check_uploaded_statement, accepted, refused,
}
use tapes_monorepo.StatementUpload.Bound.{IsVetted, check_uploaded_statement-IsVetted}
use tapes_monorepo.ClaimIngest.{statement_options, Signer, verify_claim_on_ingest}
use tapes_monorepo.BlobRoutes.{
  BlobRequest, handle_statement_upload, handle_audio_upload, handle_upload, put_file, named_doc,
  is_audio,
}
use tapes_monorepo.BlobRoutes.Vetted.{IsVettedStore, ingest_stream-IsVettedStore}
use tapes_monorepo.BlobRoutes.Files.{ingest_file-IsVettedStore}
use tapes_monorepo.BlobRoutes.Sound.{verify_claim_on_ingest-Kept}

upload_cases : (c : StatementCheck) → ((p : UploadProblem) × (c ≡ refused p)) ⊎ (c ≡ accepted)
upload_cases (refused p) = inl (p, refl)
upload_cases accepted = inr refl

-- Canonical JSON is read back; the host's key verifies the receipts that it signs, and none but those
-- that name it.
module _ (reader : Reader) (sha256 : Bytes → String) (signer : Signer)
    (reads : (s : Signed) (bytes : Bytes)
      → reader.write s ≡ some bytes
      → reader.parse bytes ≡ some s)
    (host_key : Option String)
    (signs : (key claim at : String)
      → host_key ≡ some key
      → let r : HostReceipt = record { claim = claim; received_at = at; host_key = key } in
        reader.verify key (a_receipt r) (signer.sign key (a_receipt r)) ≡ true)
    (own_receipts : (key : String) (r : HostReceipt) (signature : String)
      → host_key ≡ some key
      → reader.verify key (a_receipt r) signature ≡ true
      → r.host_key ≡ key)
    (max_blob_bytes max_store_bytes : ℕ) where
  abbrev Vetted : Disk → Type 0
  Vetted = IsVettedStore reader sha256

  claim_kept :
      (encoded : Option String) (meta : BlobMeta) (certificate : Option String)
      (received_at doc_url now : String) (d : Disk)
      → Vetted d
      → Vetted
          (verify_claim_on_ingest reader sha256 signer encoded
            (meta.hash, meta.size)
            host_key
            certificate
            received_at
            doc_url
            now
            d).0
  claim_kept encoded meta =
      verify_claim_on_ingest-Kept reader sha256 signer reads host_key signs own_receipts encoded
        meta.hash meta.size

  handle_statement_upload-Vetted :
      (body : List Bytes) (doc_url : String) (for_claim : Option String) (now : String) (d : Disk)
      → Vetted d
      → Vetted (handle_statement_upload reader sha256 signer body doc_url for_claim now d).0
  unfolding handle_statement_upload
  handle_statement_upload-Vetted body doc_url for_claim now d vetted =
      let whole = (handle_statement_upload reader sha256 signer body doc_url for_claim now d).0 in
      let unchanged : whole ≡ d → Vetted whole = λ same. subst Vetted (sym same) vetted in
      elim (Option-cases (read_chunks (some max_statement_bytes) 0 body)) [
        | inl large ↦ unchanged (ground (arith, large))
        | inr (bytes, read) ↦
            elim (upload_cases (check_uploaded_statement reader sha256 bytes d for_claim)) [
              | inl (p, problem) ↦ unchanged (ground (arith, read, problem))
              | inr passed ↦
                  let options = statement_options doc_url in
                  let same : whole ≡ (ingest_stream sha256 (bytes ∷ []) options now d).0 =
                    ground (arith, read, passed) in
                  let checked =
                    check_uploaded_statement-IsVetted reader sha256 bytes d for_claim passed in
                  subst Vetted (sym same) (
                    ingest_stream-IsVettedStore reader sha256 (bytes ∷ []) options now d
                      (λ joined joins kind.
                        let one : bytes ≡ joined = ground (arith, joins, append-nil bytes) in
                        subst (IsVetted reader sha256) one checked)
                      vetted)
            ]
      ]

  handle_audio_upload-Vetted :
      (r : BlobRequest) (doc_url received_at now : String) (d : Disk)
      → r.content_type ≢ statement_mime_type
      → Vetted d
      → Vetted
          (handle_audio_upload reader sha256 signer max_blob_bytes host_key r doc_url received_at
            now d).0
  unfolding handle_audio_upload
  handle_audio_upload-Vetted r doc_url received_at now d plain vetted =
      let options : IngestOptions = record {
        mime_type = r.content_type;
        ext = none;
        doc_url = doc_url;
        max_bytes = some max_blob_bytes;
      } in
      let kept = (ingest_stream sha256 r.body options now d).0 in
      let sound =
        ingest_stream-IsVettedStore reader sha256 r.body options now d
          (λ bytes read kind. absurd (plain kind)) vetted in
      let whole =
        (handle_audio_upload reader sha256 signer max_blob_bytes host_key r doc_url received_at now
          d).0 in
      elim (Option-cases (ingest_stream sha256 r.body options now d).1) [
        | inl large ↦
            let same : whole ≡ kept = ground (arith, large) in subst Vetted (sym same) sound
        | inr ((meta, deduped), done) ↦
            let same : whole
                ≡ (verify_claim_on_ingest reader sha256 signer r.claim (meta.hash, meta.size)
                    host_key r.certificate received_at doc_url now kept).0 =
              ground (arith, done) in
            subst Vetted (sym same)
              (claim_kept r.claim meta r.certificate received_at doc_url now kept sound)
      ]

  pub put_file-Vetted :
      (outcome : LinkOutcome) (ext : String) (bytes : Bytes) (doc_url : String)
      (claim : Option String) (received_at now : String) (d : Disk)
      → Vetted d
      → Vetted
          (put_file reader sha256 signer host_key outcome ext bytes doc_url claim received_at now
            d).0
  unfolding put_file
  put_file-Vetted outcome ext bytes doc_url claim received_at now d vetted =
      let kept = (ingest_file sha256 outcome ext bytes none doc_url now d).0 in
      let sound = ingest_file-IsVettedStore reader sha256 outcome ext bytes doc_url now d vetted in
      let whole =
        (put_file reader sha256 signer host_key outcome ext bytes doc_url claim received_at now
          d).0 in
      elim (Option-cases (ingest_file sha256 outcome ext bytes none doc_url now d).1) [
        | inl failed ↦
            let same : whole ≡ kept = ground (arith, failed) in subst Vetted (sym same) sound
        | inr ((meta, mode), done) ↦
            let same : whole
                ≡ (verify_claim_on_ingest reader sha256 signer claim (meta.hash, meta.size) host_key
                    none received_at doc_url now kept).0 =
              ground (arith, done) in
            subst Vetted (sym same) (claim_kept claim meta none received_at doc_url now kept sound)
      ]

  pub handle_upload-Vetted :
      (r : BlobRequest) (received_at now : String) (d : Disk)
      → Vetted d
      → Vetted
          (handle_upload reader sha256 signer max_blob_bytes max_store_bytes host_key r received_at
            now d).0
  unfolding handle_upload
  handle_upload-Vetted r received_at now d vetted =
      let whole =
        (handle_upload reader sha256 signer max_blob_bytes max_store_bytes host_key r received_at
          now d).0 in
      let unchanged : whole ≡ d → Vetted whole = λ same. subst Vetted (sym same) vetted in
      let doc = named_doc (if is_some r.doc_param then r.doc_param else r.doc_header) in
      let kind = r.content_type == statement_mime_type in
      elim (Bool-cases (not kind && not (is_audio r.content_type))) [
        | inl foreign ↦ unchanged (ground (arith, foreign))
        | inr right_type ↦ elim (Option-cases doc) [
          | inl unowned ↦ unchanged (ground (arith, right_type, unowned))
          | inr (doc_url, owned) ↦ elim (Bool-cases (leb max_store_bytes (total_bytes d.objects))) [
            | inl full ↦ unchanged (ground (arith, right_type, owned, full))
            | inr room ↦ elim (Bool-cases kind) [
              | inl statement ↦
                  let same : whole
                      ≡ (handle_statement_upload reader sha256 signer r.body doc_url r.for_claim now
                          d).0 =
                    ground (arith, right_type, owned, room, statement) in
                  subst Vetted (sym same)
                    (handle_statement_upload-Vetted r.body doc_url r.for_claim now d vetted)
              | inr audio ↦
                  let same : whole
                      ≡ (handle_audio_upload reader sha256 signer max_blob_bytes host_key r doc_url
                          received_at now d).0 =
                    ground (arith, right_type, owned, room, audio) in
                  subst Vetted (sym same) (
                    handle_audio_upload-Vetted r doc_url received_at now d
                      (λ is. ground (arith, is, audio, eq_iff r.content_type statement_mime_type))
                      vetted)
            ]
          ]
        ]
      ]
