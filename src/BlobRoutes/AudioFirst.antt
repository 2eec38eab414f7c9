-- ===== src/BlobRoutes/AudioFirst.antt =====
-- blobHttp.ts: a statement whose bytes were uploaded as audio before.
use tapes_monorepo.Base.{
  ◌≤◌, String, true, false, [], ◌∷◌, append-nil, ◌≢◌, Option, none, some, ◌≡◌, arith, eq_iff,
  text_eq, nat_eq, list_eq, length,
}
use tapes_monorepo.BlobStore.{
  Bytes, BlobMeta, Disk, has, stat_blob, add_ref, read_chunks, finish_ingest,
}
use tapes_monorepo.StatementUpload.{
  max_statement_bytes, statement_mime_type, Reader, holds_claim, check_uploaded_statement, accepted,
}
use tapes_monorepo.ClaimIngest.{Signer}
use tapes_monorepo.BlobRoutes.{handle_statement_upload, upload_reply}

module _ (reader : Reader) (sha256 : Bytes → String) (signer : Signer) where
  read_one :
      (bytes : Bytes)
      → length bytes ≤ max_statement_bytes
      → read_chunks (some max_statement_bytes) 0 (bytes ∷ []) ≡ some bytes
  read_one bytes short = ground (arith, append-nil bytes)

  stat-has :
      (hash : String) (d : Disk) (meta : BlobMeta)
      → stat_blob hash d ≡ some meta
      → has hash d ≡ true
  unfolding stat_blob has
  stat-has hash d meta h = ground (arith, h)

  stat-add_ref :
      (hash doc_url : String) (d : Disk)
      → stat_blob hash (add_ref hash doc_url d) ≡ stat_blob hash d
  unfolding stat_blob add_ref
  stat-add_ref hash doc_url d = ground arith

  -- Bytes that the store took as audio stay audio: when they are uploaded as a statement and pass
  -- every check, the upload is answered as a duplicate, and the store still does not hold a claim
  -- under their hash.
  pub statement_after_audio :
      (bytes : Bytes) (doc_url now : String) (for_claim : Option String) (d : Disk)
      (meta : BlobMeta)
      → stat_blob (sha256 bytes) d ≡ some meta
      → meta.mime_type ≢ statement_mime_type
      → length bytes ≤ max_statement_bytes
      → check_uploaded_statement reader sha256 bytes d for_claim ≡ accepted
      → let (after, reply) =
          handle_statement_upload reader sha256 signer (bytes ∷ []) doc_url for_claim now d in
        (reply ≡ upload_reply 200 meta none)
        × (holds_claim reader sha256 (sha256 bytes) after ≡ false)
  unfolding handle_statement_upload holds_claim finish_ingest
  statement_after_audio bytes doc_url now for_claim d meta there audio short passed =
      let hash = sha256 bytes in
      let added = add_ref hash doc_url d in
      let same = stat-add_ref hash doc_url d in
      ground (
        arith,
        there,
        audio,
        passed,
        same,
        read_one bytes short,
        append-nil bytes,
        stat-has hash d meta there,
        eq_iff meta.mime_type statement_mime_type,
      )
