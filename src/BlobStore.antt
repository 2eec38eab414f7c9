-- ===== src/BlobStore.antt =====
-- The host's content-addressed store (apps/electron-client/src/blobStore.ts). Files are read by their
-- names: an object, its meta and its refs file each under the hash. A write does not fail.
pub mod Owners
pub mod Refinement
pub mod Ingested
pub mod Race
use Prim.Native.Char.{code}
use Prim.Native.String.{[] as nil_text, ◌∷◌ as cons_text, ◌++◌ as ◌<>◌}
use tapes_monorepo.Base.{
  ℕ, ◌+◌, String, Bool, true, false, not, ◌&&◌, ◌||◌, List, [], ◌∷◌, ◌++◌, Option, none, some,
  if◌then◌else◌, ltb, leb, text_eq, nat_eq, ◌==◌, is_some, or_else, is_digit, length, filter,
  includes, Dict, get, set, delete,
}

abbrev pub Bytes : Type 0
Bytes = List ℕ

pub record BlobMeta : Type 0 where
  pub hash : String
  pub size : ℕ
  pub mime_type : String
  pub ext : String
  pub created_at : String

-- what is on the disk, by hash
pub record Disk : Type 0 where
  pub objects : Dict String Bytes
  pub metas : Dict String BlobMeta
  pub refs : Dict String (List String)
  pub receipts : Dict String String

abbrev pub empty_disk : Disk
empty_disk = record { objects = []; metas = []; refs = []; receipts = [] }

abbrev is_hex : ℕ → Bool
is_hex c = is_digit c || (leb b'a' c && leb c b'f')

abbrev count_hex : String → Option ℕ
count_hex nil_text = some 0
count_hex (cons_text c s) =
    let rest = count_hex s in
    if is_hex (code c) then elim rest [ none ↦ none | some n ↦ some (n + 1) ] else none

-- `/^[0-9a-f]{64}$/`
unfoldable pub is_valid_blob_hash : String → Bool
is_valid_blob_hash hash = elim (count_hex hash) [ none ↦ false | some n ↦ n == 64 ]

abbrev extension_by_mime_type : Dict String String
extension_by_mime_type =
    ("audio/wav", ".wav")
    ∷ ("audio/x-wav", ".wav")
    ∷ ("audio/wave", ".wav")
    ∷ ("audio/mpeg", ".mp3")
    ∷ ("audio/ogg", ".ogg")
    ∷ ("audio/flac", ".flac")
    ∷ ("audio/mp4", ".mp4")
    ∷ ("audio/webm", ".webm")
    ∷ []

abbrev pub mime_type_by_extension : Dict String String
mime_type_by_extension =
    (".wav", "audio/wav")
    ∷ (".mp3", "audio/mpeg")
    ∷ (".ogg", "audio/ogg")
    ∷ (".flac", "audio/flac")
    ∷ (".mp4", "audio/mp4")
    ∷ (".m4a", "audio/mp4")
    ∷ (".webm", "audio/webm")
    ∷ []

-- `ext` is the file's extension, in lower case
unfoldable pub mime_type_of_file : String → String
unfolding get
mime_type_of_file ext = or_else (get ext mime_type_by_extension) "application/octet-stream"

abbrev starts_with_dot : String → Bool
starts_with_dot nil_text = false
starts_with_dot (cons_text c s) = code c == b'.'

unfoldable pub resolve_ext : String → Option String → String
unfolding get
resolve_ext mime_type fallback_ext =
    let by_type = or_else (get mime_type extension_by_mime_type) ".bin" in
    elim fallback_ext [
      | none ↦ by_type
      | some ext ↦ if ext == "" then by_type else if starts_with_dot ext then ext else "." <> ext
    ]

unfoldable pub has : String → Disk → Bool
has hash d = is_valid_blob_hash hash && is_some (get hash d.objects)

unfoldable pub read_refs : String → Disk → List String
read_refs hash d = or_else (get hash d.refs) []

-- The size is the object's own.
unfoldable pub stat_blob : String → Disk → Option BlobMeta
stat_blob hash d = if not (is_valid_blob_hash hash) then none else elim (get hash d.metas) [
  | none ↦ none
  | some meta ↦ elim (get hash d.objects) [
    | none ↦ none
    | some bytes ↦ some (record meta { size = length bytes })
  ]
]

unfoldable pub add_ref : String → String → Disk → Disk
add_ref hash doc_url d =
    if includes (read_refs hash d) doc_url
    then d
    else record d { refs = set hash (read_refs hash d ++ doc_url ∷ []) d.refs }

unfoldable pub unlink_all : String → Disk → Disk
unlink_all hash d = record {
  objects = delete hash d.objects;
  metas = delete hash d.metas;
  refs = delete hash d.refs;
  receipts = delete hash d.receipts;
}

-- with whether the bytes were removed
unfoldable pub release_ref : String → String → Disk → Disk × Bool
release_ref hash doc_url d =
    let refs = read_refs hash d in
    let next = filter (λ each. not (each == doc_url)) refs in
    if length next == length refs && ltb 0 (length refs)
    then (d, false)
    else if ltb 0 (length next)
    then (record d { refs = set hash next d.refs }, false)
    else (unlink_all hash d, true)

unfoldable pub remove : String → Disk → Disk × Bool
remove hash d = if is_valid_blob_hash hash then (unlink_all hash d, has hash d) else (d, false)

unfoldable pub find_receipt : String → Disk → Option String
find_receipt claim_hash d =
    if not (is_valid_blob_hash claim_hash) then none else elim (get claim_hash d.receipts) [
      | none ↦ none
      | some receipt ↦ if is_valid_blob_hash receipt then some receipt else none
    ]

unfoldable pub record_receipt : String → String → Disk → Disk
record_receipt claim_hash receipt_hash d = record d {
  receipts = set claim_hash receipt_hash d.receipts;
}

unfoldable pub finalize_meta : String → ℕ → String → String → String → Disk → Disk × BlobMeta
finalize_meta hash size mime_type ext now d =
    let meta : BlobMeta = record {
      hash = hash;
      size = size;
      mime_type = mime_type;
      ext = ext;
      created_at = now;
    } in
    (record d { metas = set hash meta d.metas }, meta)

pub record IngestOptions : Type 0 where
  pub mime_type : String
  pub ext : Option String
  pub doc_url : String
  pub max_bytes : Option ℕ

abbrev pub IngestResult : Type 0
IngestResult = BlobMeta × Bool

-- The stream's bytes, with how many were read before; nothing past the limit.
abbrev pub read_chunks : Option ℕ → ℕ → List Bytes → Option Bytes
read_chunks max_bytes size [] = some []
read_chunks max_bytes size (chunk ∷ chunks) =
    let rest = read_chunks max_bytes (size + length chunk) chunks in
    if elim max_bytes [ none ↦ false | some most ↦ ltb most (size + length chunk) ]
    then none
    else elim rest [ none ↦ none | some bytes ↦ some (chunk ++ bytes) ]

-- A file that is ingested: it is linked, or there is such an object by now, or it is copied because it
-- cannot be linked, or the linking fails.
pub data LinkOutcome : Type 0 where
  links exists_already cannot_link link_fails : LinkOutcome

pub data IngestMode : Type 0 where
  by_hardlink by_copy as_duplicate : IngestMode

-- the end of an ingest whose object is known: the owner first, and a meta if there is none
abbrev add_owner : String → ℕ → String → String → String → String → Disk → Disk × BlobMeta
add_owner hash size mime_type ext doc_url now d =
    let after = add_ref hash doc_url d in
    elim (stat_blob hash after) [
      | none ↦ finalize_meta hash size mime_type ext now after
      | some meta ↦ (after, meta)
    ]

-- the end of an ingest whose object was put there
abbrev add_object_meta : String → ℕ → String → String → String → String → Disk → Disk × BlobMeta
add_object_meta hash size mime_type ext doc_url now d =
    let (after, meta) = finalize_meta hash size mime_type ext now d in
    (add_ref hash doc_url after, meta)

module _ (sha256 : Bytes → String) where
  -- `ingestStream` behind its test of `has`, whose answer is `known`
  unfoldable pub finish_ingest : Bool → Bytes → IngestOptions → String → Disk → Disk × IngestResult
  unfolding add_ref stat_blob finalize_meta
  finish_ingest known bytes options now d =
      let hash = sha256 bytes in
      let ext = resolve_ext options.mime_type options.ext in
      elim known [
        | true ↦
            let (after, meta) =
              add_owner hash (length bytes) options.mime_type ext options.doc_url now d in
            (after, (meta, true))
        | false ↦
            let (after, meta) =
              add_object_meta hash (length bytes) options.mime_type ext options.doc_url now
                (record d { objects = set hash bytes d.objects }) in
            (after, (meta, false))
      ]

  unfoldable pub ingest_stream :
      List Bytes → IngestOptions → String → Disk → Disk × Option IngestResult
  unfolding finish_ingest has
  ingest_stream chunks options now d = elim (read_chunks options.max_bytes 0 chunks) [
    | none ↦ (d, none)
    | some bytes ↦
        let (after, result) = finish_ingest (has (sha256 bytes) d) bytes options now d in
        (after, some result)
  ]

  -- `ext` and `bytes` are the file's. The object exists already where another ingest of the same
  -- content has put it since `has` was asked.
  unfoldable pub ingest_file :
      LinkOutcome
      → String
      → Bytes
      → Option String
      → String
      → String
      → Disk
      → Disk × Option (BlobMeta × IngestMode)
  unfolding has add_ref stat_blob finalize_meta
  ingest_file outcome ext bytes given_type doc_url now d =
      let hash = sha256 bytes in
      let size = length bytes in
      let mime_type = or_else given_type (mime_type_of_file ext) in
      let put : Disk = record d { objects = set hash bytes d.objects } in
      let over : Disk → IngestMode → Disk × Option (BlobMeta × IngestMode) = λ disk mode.
        let (after, meta) = add_object_meta hash size mime_type ext doc_url now disk in
        (after, some (meta, mode)) in
      elim (has hash d) [
        | true ↦
            let (after, meta) = add_owner hash size mime_type ext doc_url now d in
            (after, some (meta, as_duplicate))
        | false ↦ elim outcome [
          | links ↦ over put by_hardlink
          | exists_already ↦ over put as_duplicate
          | cannot_link ↦ over put by_copy
          | link_fails ↦ (d, none)
        ]
      ]

unfoldable pub total_bytes : Dict String Bytes → ℕ
total_bytes [] = 0
total_bytes ((hash, bytes) ∷ objects) = length bytes + total_bytes objects
