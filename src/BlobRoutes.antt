-- ===== src/BlobRoutes.antt =====
-- The routes of the blob store (apps/electron-client/src/blobHttp.ts). A request is given by what the
-- handlers read of it.
pub mod Vetted
pub mod Kept
pub mod Files
pub mod Sound
pub mod Uploads
pub mod Steps
pub mod AudioFirst
pub mod Order
pub mod Stays
use tapes_monorepo.Base.{
  ℕ, ◌*◌, String, Bool, not, ◌&&◌, List, [], ◌∷◌, Option, none, some, if◌then◌else◌, leb, text_eq,
  nat_eq, ◌==◌, is_some,
}
use tapes_monorepo.BlobStore.{
  Bytes, BlobMeta, Disk, is_valid_blob_hash, stat_blob, remove, IngestOptions, read_chunks,
  LinkOutcome, ingest_stream, ingest_file, total_bytes,
}
use tapes_monorepo.BlobStore.Refinement.{handle_delete, stored, given_up}
use tapes_monorepo.StatementUpload.{
  max_statement_bytes, statement_mime_type, UploadProblem, Reader, check_uploaded_statement,
  accepted, refused,
}
use tapes_monorepo.ClaimIngest.{
  ClaimIngestResult, statement_options, Signer, verify_claim_on_ingest,
}
use tapes_monorepo.Ranges.{ParsedRange, after_prefix, parse_range, ok, unsatisfiable, whole}

abbrev pub default_max_blob_bytes : ℕ
default_max_blob_bytes = 512 * 1024 * 1024

abbrev pub default_max_store_bytes : ℕ
default_max_store_bytes = 32 * 1024 * 1024 * 1024

pub data BlobPath : Type 0 where
  -- `/blobs`, and `/blobs/` with a hash, decoded
  all_blobs : BlobPath
  one_blob : String → BlobPath
  other_path : BlobPath

pub data BlobMethod : Type 0 where
  get_blob head_blob post_blob delete_blob options_blob other_blob : BlobMethod

pub record BlobRequest : Type 0 where
  pub path : BlobPath
  pub method : BlobMethod
  -- `isAuthorized`
  pub authorized : Bool
  -- before a semicolon, trimmed and in lower case
  pub content_type : String
  pub doc_param : Option String
  pub doc_header : Option String
  pub for_claim : Option String
  pub claim : Option String
  pub certificate : Option String
  pub range : Option String
  pub body : List Bytes

pub data BlobReply : Type 0 where
  passed_on : BlobReply
  status_only : ℕ → BlobReply
  -- 422
  statement_refused : UploadProblem → BlobReply
  -- a status, what is stored, and what came of a claim
  upload_reply : ℕ → BlobMeta → Option ClaimIngestResult → BlobReply
  -- a status, the meta and the range; the bytes are sent unless the method is HEAD
  download_reply : ℕ → BlobMeta → ParsedRange → BlobReply

abbrev is_audio : String → Bool
is_audio content_type = is_some (after_prefix "audio/" content_type)

-- `!docUrl`, or the document
abbrev named_doc : Option String → Option String
named_doc doc = elim doc [ none ↦ none | some url ↦ if url == "" then none else some url ]

abbrev stored_status : Bool → ℕ
stored_status deduped = if deduped then 200 else 201

unfoldable pub handle_download : String → BlobMethod → Option String → Disk → BlobReply
unfolding stat_blob parse_range
handle_download hash method range d = elim (stat_blob hash d) [
  | none ↦ status_only 404
  | some meta ↦ elim (parse_range range meta.size) [
    | unsatisfiable ↦ status_only 416
    | ok start end ↦ download_reply 206 meta (ok start end)
    | whole ↦ download_reply 200 meta whole
  ]
]

unfoldable pub handle_delete_request : String → Option String → Disk → Disk × BlobReply
unfolding handle_delete
handle_delete_request hash doc d = elim (named_doc doc) [
  | none ↦ (d, status_only 400)
  | some doc_url ↦
      let (after, answer) = handle_delete hash doc_url d in
      (after, elim answer [ given_up ↦ status_only 204 | _ ↦ status_only 404 ])
]

module _ (reader : Reader) (sha256 : Bytes → String) (signer : Signer) where
  unfoldable pub handle_statement_upload :
      List Bytes → String → Option String → String → Disk → Disk × BlobReply
  unfolding check_uploaded_statement ingest_stream
  handle_statement_upload body doc_url for_claim now d =
      elim (read_chunks (some max_statement_bytes) 0 body) [
        | none ↦ (d, status_only 413)
        | some bytes ↦ elim (check_uploaded_statement reader sha256 bytes d for_claim) [
          | refused p ↦ (d, statement_refused p)
          | accepted ↦
              let (after, result) =
                ingest_stream sha256 (bytes ∷ []) (statement_options doc_url) now d in
              (
                after,
                elim result [
                  | none ↦ status_only 500
                  | some (meta, deduped) ↦ upload_reply (stored_status deduped) meta none
                ],
              )
        ]
      ]

  -- `host_key` is the key for receipts, if it can be loaded, and `received_at` the time of a receipt.
  unfoldable pub handle_audio_upload :
      ℕ → Option String → BlobRequest → String → String → String → Disk → Disk × BlobReply
  unfolding ingest_stream verify_claim_on_ingest
  handle_audio_upload max_blob_bytes host_key r doc_url received_at now d =
      let options : IngestOptions = record {
        mime_type = r.content_type;
        ext = none;
        doc_url = doc_url;
        max_bytes = some max_blob_bytes;
      } in
      let (kept, result) = ingest_stream sha256 r.body options now d in
      elim result [
        | none ↦ (kept, status_only 413)
        | some (meta, deduped) ↦
            let (after, outcome) =
              verify_claim_on_ingest reader sha256 signer r.claim (meta.hash, meta.size) host_key
                r.certificate received_at doc_url now kept in
            (
              after,
              elim outcome [
                | none ↦ status_only 500
                | some result ↦ upload_reply (stored_status deduped) meta (some result)
              ],
            )
      ]

  unfoldable pub handle_upload :
      ℕ → ℕ → Option String → BlobRequest → String → String → Disk → Disk × BlobReply
  unfolding handle_statement_upload handle_audio_upload total_bytes
  handle_upload max_blob_bytes max_store_bytes host_key r received_at now d =
      let is_statement = r.content_type == statement_mime_type in
      if not is_statement && not (is_audio r.content_type)
      then (d, status_only 415)
      else elim (named_doc (if is_some r.doc_param then r.doc_param else r.doc_header)) [
        | none ↦ (d, status_only 400)
        | some doc_url ↦
            if leb max_store_bytes (total_bytes d.objects)
            then (d, status_only 507)
            else if is_statement
            then handle_statement_upload r.body doc_url r.for_claim now d
            else handle_audio_upload max_blob_bytes host_key r doc_url received_at now d
      ]

  unfoldable pub handle_blob_request :
      ℕ → ℕ → Option String → BlobRequest → String → String → Disk → Disk × BlobReply
  unfolding handle_upload handle_download handle_delete_request
  handle_blob_request max_blob_bytes max_store_bytes host_key r received_at now d =
      let authorized : Disk × BlobReply = elim r.path [
        | all_blobs ↦ elim r.method [
          | post_blob ↦ handle_upload max_blob_bytes max_store_bytes host_key r received_at now d
          | _ ↦ (d, status_only 405)
        ]
        | one_blob hash ↦
            if not (is_valid_blob_hash hash) then (d, status_only 400) else elim r.method [
              | get_blob ↦ (d, handle_download hash get_blob r.range d)
              | head_blob ↦ (d, handle_download hash head_blob r.range d)
              | delete_blob ↦ handle_delete_request hash r.doc_param d
              | _ ↦ (d, status_only 405)
            ]
        | other_path ↦ (d, passed_on)
      ] in
      let answered : Disk × BlobReply = elim r.method [
        | options_blob ↦ (d, status_only 204)
        | _ ↦ if r.authorized then authorized else (d, status_only 401)
      ] in
      elim r.path [ other_path ↦ (d, passed_on) | _ ↦ answered ]

  -- What the host's own recorder asks over IPC (channels/PutBlobChannel.ts): the file, its extension
  -- in lower case, and the claim. No result is a failure.
  unfoldable pub put_file :
      Option String
      → LinkOutcome
      → String
      → Bytes
      → String
      → Option String
      → String
      → String
      → Disk
      → Disk × Option (BlobMeta × ClaimIngestResult)
  unfolding ingest_file verify_claim_on_ingest
  put_file host_key outcome ext bytes doc_url claim received_at now d =
      let (kept, result) = ingest_file sha256 outcome ext bytes none doc_url now d in
      elim result [
        | none ↦ (kept, none)
        | some (meta, mode) ↦
            let (after, outcome) =
              verify_claim_on_ingest reader sha256 signer claim (meta.hash, meta.size) host_key none
                received_at doc_url now kept in
            (after, elim outcome [ none ↦ none | some result ↦ some (meta, result) ])
      ]

-- What happens to a host's store: a request, a file of its recorder, or a hash that the sweep of
-- `blobGc.ts` removes; with the times that are written.
pub data HostStep : Type 0 where
  asked : BlobRequest → String → String → HostStep
  recorded : LinkOutcome → String → Bytes → String → Option String → String → String → HostStep
  collected : String → HostStep

module _ (reader : Reader) (sha256 : Bytes → String) (signer : Signer)
    (max_blob_bytes max_store_bytes : ℕ) (host_key : Option String) where
  unfoldable pub host_step : HostStep → Disk → Disk
  unfolding handle_blob_request put_file remove
  host_step (asked r received_at now) d =
      (handle_blob_request reader sha256 signer max_blob_bytes max_store_bytes host_key r
        received_at now d).0
  host_step (recorded outcome ext bytes doc_url claim received_at now) d =
      (put_file reader sha256 signer host_key outcome ext bytes doc_url claim received_at now d).0
  host_step (collected hash) d = (remove hash d).0

  unfoldable pub host_steps : List HostStep → Disk → Disk
  unfolding host_step
  host_steps [] d = d
  host_steps (s ∷ rest) d = host_steps rest (host_step s d)
