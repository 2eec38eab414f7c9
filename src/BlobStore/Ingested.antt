-- ===== src/BlobStore/Ingested.antt =====
-- blobStore.ts: what an ingest leaves behind.
use tapes_monorepo.Base.{
  String, Bool, true, false, ◌&&◌, List, [], ◌∷◌, ◌++◌, some, ◌≡◌, arith, if◌then◌else◌, text_eq,
  nat_eq, ==_refl, is_some, or_else, length, includes, includes-append, get, set, get-set,
}
use tapes_monorepo.BlobStore.{
  Bytes, BlobMeta, Disk, is_valid_blob_hash, resolve_ext, has, read_refs, stat_blob, add_ref,
  finalize_meta, IngestOptions, read_chunks, finish_ingest, ingest_stream,
}

includes-add_ref :
    (hash doc_url : String) (d : Disk)
    → includes (read_refs hash (add_ref hash doc_url d)) doc_url ≡ true
unfolding add_ref read_refs
includes-add_ref hash doc_url d = ground (
  arith,
  get-set hash hash (or_else (get hash d.refs) [] ++ doc_url ∷ []) d.refs,
  includes-append (or_else (get hash d.refs) []) (doc_url ∷ []) doc_url,
  ==_refl hash,
  ==_refl doc_url,
)

module _ (sha256 : Bytes → String) where
  pub finish_ingest-objects :
      (bytes : Bytes) (options : IngestOptions) (now : String) (d : Disk) (known : Bool)
      → (finish_ingest sha256 known bytes options now d).0.objects
        ≡ (if known then d.objects else set (sha256 bytes) bytes d.objects)
  unfolding finish_ingest add_ref finalize_meta
  finish_ingest-objects bytes options now d known = ground (arith)

  pub finish_ingest-refs :
      (bytes : Bytes) (options : IngestOptions) (now : String) (d : Disk) (known : Bool)
      → (finish_ingest sha256 known bytes options now d).0.refs
        ≡ (add_ref (sha256 bytes) options.doc_url d).refs
  unfolding finish_ingest add_ref finalize_meta read_refs
  finish_ingest-refs bytes options now d known = ground (arith)

  -- what an upload would write
  abbrev pub new_meta : Bytes → IngestOptions → String → BlobMeta
  new_meta bytes options now = record {
    hash = sha256 bytes;
    size = length bytes;
    mime_type = options.mime_type;
    ext = resolve_ext options.mime_type options.ext;
    created_at = now;
  }

  pub finish_ingest-metas :
      (bytes : Bytes) (options : IngestOptions) (now : String) (d : Disk) (known : Bool)
      → (finish_ingest sha256 known bytes options now d).0.metas ≡ (
          if known && is_some (stat_blob (sha256 bytes) d)
          then d.metas
          else set (sha256 bytes) (new_meta bytes options now) d.metas)
  unfolding finish_ingest add_ref finalize_meta stat_blob
  finish_ingest-metas bytes options now d true = ground arith
  finish_ingest-metas bytes options now d false = ground arith

module _ (sha256 : Bytes → String)
    (names : (bytes : Bytes) → is_valid_blob_hash (sha256 bytes) ≡ true) where
  finish_ingest_lem :
      (bytes : Bytes) (options : IngestOptions) (now : String) (d : Disk)
      → let hash = sha256 bytes in
        let after = (finish_ingest sha256 (has hash d) bytes options now d).0 in
        (is_some (stat_blob hash after) ≡ true)
        × (has hash after ≡ true)
        × (includes (read_refs hash after) options.doc_url ≡ true)
  unfolding has stat_blob read_refs
  finish_ingest_lem bytes options now d =
      let hash = sha256 bytes in
      let known = has hash d in
      ground (
        arith,
        names bytes,
        finish_ingest-objects sha256 bytes options now d known,
        finish_ingest-refs sha256 bytes options now d known,
        finish_ingest-metas sha256 bytes options now d known,
        includes-add_ref hash options.doc_url d,
        get-set hash hash bytes d.objects,
        get-set hash hash (new_meta sha256 bytes options now) d.metas,
        ==_refl hash,
      )

  -- An upload that is answered has left the bytes of its hash in the store, with a meta, and its
  -- document is one of the owners. This is so whatever was on the disk before, such as what a crash
  -- has left of an earlier upload.
  pub ingest_stream_lem :
      (chunks : List Bytes) (options : IngestOptions) (now : String) (d : Disk) (bytes : Bytes)
      → read_chunks options.max_bytes 0 chunks ≡ some bytes
      → let after = (ingest_stream sha256 chunks options now d).0 in
        (is_some (stat_blob (sha256 bytes) after) ≡ true)
        × (has (sha256 bytes) after ≡ true)
        × (includes (read_refs (sha256 bytes) after) options.doc_url ≡ true)
  unfolding ingest_stream
  ingest_stream_lem chunks options now d bytes read =
      ground (arith, read, finish_ingest_lem bytes options now d)
