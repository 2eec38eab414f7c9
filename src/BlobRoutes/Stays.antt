-- ===== src/BlobRoutes/Stays.antt =====
-- blobHttp.ts: what an upload of a statement leaves as it was.
use tapes_monorepo.Base.{
  String, true, false, append-nil, ◌⊎◌, inl, inr, Option, some, ◌≡◌, refl, arith, eq_iff, ltb,
  text_eq, nat_eq, ◌==◌, Bool-cases, Option-cases, list_eq, length, get, get-set,
}
use tapes_monorepo.Statements.{Signed}
use tapes_monorepo.BlobStore.{
  Bytes, BlobMeta, Disk, is_valid_blob_hash, has, stat_blob, IngestOptions, finish_ingest,
}
use tapes_monorepo.BlobStore.Ingested.{finish_ingest-objects, new_meta, finish_ingest-metas}
use tapes_monorepo.StatementUpload.{
  max_statement_bytes, UploadProblem, StatementCheck, Reader, read_stored_statement,
  stored_statement, check_uploaded_statement, accepted, refused,
}
use tapes_monorepo.ClaimIngest.{statement_options, Signer}
use tapes_monorepo.BlobRoutes.{handle_statement_upload}
use tapes_monorepo.BlobRoutes.Order.{uploaded}

check_cases : (c : StatementCheck) → (c ≡ accepted) ⊎ ((p : UploadProblem) × (c ≡ refused p))
check_cases accepted = inl refl
check_cases (refused p) = inr (p, refl)

module _ (sha256 : Bytes → String) where
  finish_ingest-get :
      (bytes : Bytes) (options : IngestOptions) (now : String) (d : Disk) (hash : String)
      → has hash d ≡ true
      → let known = has (sha256 bytes) d in
        get hash (finish_ingest sha256 known bytes options now d).0.objects ≡ get hash d.objects
  unfolding has
  finish_ingest-get bytes options now d hash there =
      let known = has (sha256 bytes) d in
      ground (
        arith,
        there,
        finish_ingest-objects sha256 bytes options now d known,
        get-set (sha256 bytes) hash bytes d.objects,
        eq_iff (sha256 bytes) hash,
      )

  finish_ingest-stat_blob :
      (bytes : Bytes) (options : IngestOptions) (now : String) (d : Disk) (hash : String)
      (meta : BlobMeta)
      → stat_blob hash d ≡ some meta
      → let known = has (sha256 bytes) d in
        stat_blob hash (finish_ingest sha256 known bytes options now d).0 ≡ some meta
  unfolding has stat_blob
  finish_ingest-stat_blob bytes options now d hash meta there =
      let known = has (sha256 bytes) d in
      ground (
        arith,
        there,
        finish_ingest-get bytes options now d hash (ground (arith, there)),
        finish_ingest-metas sha256 bytes options now d known,
        get-set (sha256 bytes) hash (new_meta sha256 bytes options now) d.metas,
        eq_iff (sha256 bytes) hash,
      )

module _ (reader : Reader) (sha256 : Bytes → String) (signer : Signer)
    (names : (bytes : Bytes) → is_valid_blob_hash (sha256 bytes) ≡ true) where
  open reader use {parse, write, verify}

  uploaded_cases :
      (bytes : Bytes) (doc_url now : String) (for_claim : Option String) (d : Disk)
      → let after = uploaded reader sha256 signer names bytes doc_url for_claim now d in
        (after ≡ d)
        ⊎ (after
            ≡ (finish_ingest sha256
                (has (sha256 bytes) d)
                bytes
                (statement_options doc_url)
                now
                d).0)
  unfolding handle_statement_upload
  uploaded_cases bytes doc_url now for_claim d =
      elim (check_cases (check_uploaded_statement reader sha256 bytes d for_claim)) [
        | inr (p, problem) ↦ inl (ground (arith, problem, append-nil bytes))
        | inl passed ↦ elim (Bool-cases (ltb max_statement_bytes (length bytes))) [
          | inl long ↦ inl (ground (arith, long))
          | inr short ↦ inr (ground (arith, short, passed, append-nil bytes))
        ]
      ]

  pub stat_blob-uploaded :
      (bytes : Bytes) (doc_url now : String) (for_claim : Option String) (d : Disk) (hash : String)
      (meta : BlobMeta)
      → stat_blob hash d ≡ some meta
      → stat_blob hash (uploaded reader sha256 signer names bytes doc_url for_claim now d)
        ≡ some meta
  stat_blob-uploaded bytes doc_url now for_claim d hash meta there =
      elim (uploaded_cases bytes doc_url now for_claim d) [
        | inl same ↦ rw same there
        | inr after ↦
            rw after (
              finish_ingest-stat_blob sha256 bytes (statement_options doc_url) now d hash meta
                there)
      ]

  pub has-uploaded :
      (bytes : Bytes) (doc_url now : String) (for_claim : Option String) (d : Disk) (hash : String)
      → has hash d ≡ false
      → (sha256 bytes == hash) ≡ false
      → has hash (uploaded reader sha256 signer names bytes doc_url for_claim now d) ≡ false
  unfolding has
  has-uploaded bytes doc_url now for_claim d hash absent differs =
      let options = statement_options doc_url in
      let known = has (sha256 bytes) d in
      elim (uploaded_cases bytes doc_url now for_claim d) [
        | inl same ↦ rw same absent
        | inr after ↦ ground (
          arith,
          after,
          absent,
          differs,
          finish_ingest-objects sha256 bytes options now d known,
          get-set (sha256 bytes) hash bytes d.objects,
        )
      ]

  -- An upload of a statement, taken or refused, leaves every statement that is stored.
  pub stored_statement-stays :
      (bytes : Bytes) (doc_url now : String) (for_claim : Option String) (d : Disk) (hash : String)
      (s : Signed)
      → stored_statement reader sha256 hash d ≡ some s
      → stored_statement reader sha256 hash
          (uploaded reader sha256 signer names bytes doc_url for_claim now d)
        ≡ some s
  unfolding read_stored_statement stat_blob has
  stored_statement-stays bytes doc_url now for_claim d hash s there =
      elim (Option-cases (stat_blob hash d)) [
        | inl nothing ↦ absurd (ground (arith, there, nothing))
        | inr (meta, held) ↦
            let later = stat_blob-uploaded bytes doc_url now for_claim d hash meta held in
            let present : has hash d ≡ true = ground (arith, held) in
            elim (uploaded_cases bytes doc_url now for_claim d) [
              | inl same ↦ rw same there
              | inr after ↦ ground (
                arith,
                there,
                held,
                later,
                after,
                finish_ingest-get sha256 bytes (statement_options doc_url) now d hash present,
              )
            ]
      ]
