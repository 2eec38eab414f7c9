-- ===== src/BlobRoutes/Vetted.antt =====
-- blobHttp.ts: what is stored as a statement has been checked.
use tapes_monorepo.Base.{
  String, true, not, ◌&&◌, List, inl, inr, some, ◌≡◌, sym, subst, arith, eq_iff, ltb, text_eq,
  nat_eq, ◌==◌, Bool-cases, Option-cases, is_some, length, filter, get, get-set, get-delete,
}
use tapes_monorepo.Statements.{}
use tapes_monorepo.BlobStore.{
  Bytes, BlobMeta, Disk, is_valid_blob_hash, has, read_refs, stat_blob, unlink_all, release_ref,
  remove, IngestOptions, read_chunks, finish_ingest, ingest_stream,
}
use tapes_monorepo.BlobStore.Ingested.{finish_ingest-objects, new_meta, finish_ingest-metas}
use tapes_monorepo.BlobStore.Refinement.{}
use tapes_monorepo.StatementUpload.{statement_mime_type, Reader}
use tapes_monorepo.StatementUpload.Bound.{IsVetted}
use tapes_monorepo.ClaimIngest.{}
use tapes_monorepo.BlobRoutes.{}

module _ (reader : Reader) (sha256 : Bytes → String) where
  -- Each object is filed under its hash, and has a meta. What the meta calls a statement is one, in
  -- canonical form, and the key in it signed it.
  abbrev pub IsVettedStore : Disk → Type 0
  IsVettedStore d =
      (hash : String) (bytes : Bytes)
      → get hash d.objects ≡ some bytes
      → (sha256 bytes ≡ hash)
        × (meta : BlobMeta) × (get hash d.metas ≡ some meta)
        × (meta.mime_type ≡ statement_mime_type → IsVetted reader sha256 bytes)

  has-stat_blob :
      (hash : String) (d : Disk)
      → IsVettedStore d
      → has hash d ≡ true
      → is_some (stat_blob hash d) ≡ true
  unfolding has stat_blob
  has-stat_blob hash d vetted there = elim (Option-cases (get hash d.objects)) [
    | inl absent ↦ absurd (ground (arith, absent, there))
    | inr (bytes, held) ↦
        let (filed, meta, found, checked) = vetted hash bytes held in
        ground (arith, held, found, there)
  ]

  pub finish_ingest-IsVettedStore :
      (bytes : Bytes) (options : IngestOptions) (now : String) (d : Disk)
      → (options.mime_type ≡ statement_mime_type → IsVetted reader sha256 bytes)
      → IsVettedStore d
      → IsVettedStore (finish_ingest sha256 (has (sha256 bytes) d) bytes options now d).0
  finish_ingest-IsVettedStore bytes options now d checked vetted hash held there =
      let own_hash = sha256 bytes in
      let known = has own_hash d in
      let objects = finish_ingest-objects sha256 bytes options now d known in
      let metas = finish_ingest-metas sha256 bytes options now d known in
      let fresh = new_meta sha256 bytes options now in
      elim (Bool-cases known) [
        | inl old ↦
            let (filed, meta, found, sound) =
              vetted hash held (ground (arith, there, objects, old)) in
            (
              filed,
              meta,
              ground (arith, metas, old, found, has-stat_blob own_hash d vetted old),
              sound,
            )
        | inr new ↦ elim (Bool-cases (own_hash == hash)) [
          | inl same ↦
              let same_bytes : held ≡ bytes =
                ground (arith, there, objects, new, same, get-set own_hash hash bytes d.objects) in
              (
                ground (arith, same_bytes, same, eq_iff own_hash hash),
                fresh,
                ground (arith, metas, new, same, get-set own_hash hash fresh d.metas),
                λ kind. subst (IsVetted reader sha256) (sym same_bytes) (checked kind),
              )
          | inr differs ↦
              let (filed, meta, found, sound) = vetted hash held (
                ground
                  (arith, there, objects, new, differs, get-set own_hash hash bytes d.objects)) in
              (
                filed,
                meta,
                ground (arith, metas, new, differs, found, get-set own_hash hash fresh d.metas),
                sound,
              )
        ]
      ]

  pub unlink_all-IsVettedStore :
      (hash : String) (d : Disk) → IsVettedStore d → IsVettedStore (unlink_all hash d)
  unfolding unlink_all
  unlink_all-IsVettedStore hash d vetted name held there =
      let (filed, meta, found, sound) =
        vetted name held (ground (arith, there, get-delete hash name d.objects)) in
      (
        filed,
        meta,
        ground (arith, there, found, get-delete hash name d.objects, get-delete hash name d.metas),
        sound,
      )

  pub release_ref-IsVettedStore :
      (hash doc_url : String) (d : Disk)
      → IsVettedStore d
      → IsVettedStore (release_ref hash doc_url d).0
  unfolding release_ref
  release_ref-IsVettedStore hash doc_url d vetted =
      let refs = read_refs hash d in
      let next = filter (λ each. not (each == doc_url)) refs in
      elim (Bool-cases (length next == length refs && ltb 0 (length refs))) [
        | inl stays ↦ rw stays vetted
        | inr goes ↦ elim (Bool-cases (ltb 0 (length next))) [
          | inl left ↦ rw (goes, left) vetted
          | inr gone ↦ rw (goes, gone) (unlink_all-IsVettedStore hash d vetted)
        ]
      ]

  pub ingest_stream-IsVettedStore :
      (chunks : List Bytes) (options : IngestOptions) (now : String) (d : Disk)
      → ((bytes : Bytes)
          → read_chunks options.max_bytes 0 chunks ≡ some bytes
          → options.mime_type ≡ statement_mime_type
          → IsVetted reader sha256 bytes)
      → IsVettedStore d
      → IsVettedStore (ingest_stream sha256 chunks options now d).0
  unfolding ingest_stream
  ingest_stream-IsVettedStore chunks options now d checked vetted =
      elim (Option-cases (read_chunks options.max_bytes 0 chunks)) [
        | inl large ↦
            let same : (ingest_stream sha256 chunks options now d).0 ≡ d = ground (arith, large) in
            subst IsVettedStore (sym same) vetted
        | inr (bytes, read) ↦
            let same : (ingest_stream sha256 chunks options now d).0
                ≡ (finish_ingest sha256 (has (sha256 bytes) d) bytes options now d).0 =
              ground (arith, read) in
            subst IsVettedStore (sym same)
              (finish_ingest-IsVettedStore bytes options now d (checked bytes read) vetted)
      ]

  pub IsVettedStore-same :
      (d e : Disk) → e.objects ≡ d.objects → e.metas ≡ d.metas → IsVettedStore d → IsVettedStore e
  IsVettedStore-same d e objects metas vetted hash bytes there =
      let (filed, meta, found, sound) = vetted hash bytes (rw objects at there) in
      (filed, meta, rw metas found, sound)

  pub remove-IsVettedStore :
      (hash : String) (d : Disk) → IsVettedStore d → IsVettedStore (remove hash d).0
  unfolding remove
  remove-IsVettedStore hash d vetted = elim (Bool-cases (is_valid_blob_hash hash)) [
    | inl valid ↦ rw valid (unlink_all-IsVettedStore hash d vetted)
    | inr strange ↦ rw strange vetted
  ]
