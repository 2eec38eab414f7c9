-- ===== src/BlobStore/Race.antt =====
-- blobStore.ts: an upload and a delete of the same bytes at the same time.
use tapes_monorepo.Base.{
  String, true, false, [], ◌∷◌, ◌≡◌, arith, text_eq, nat_eq, ==_refl, delete, get-set, get-delete,
}
use tapes_monorepo.BlobStore.{
  Bytes, Disk, has, read_refs, add_ref, unlink_all, release_ref, IngestOptions, finish_ingest,
}
use tapes_monorepo.BlobStore.Ingested.{finish_ingest-objects, finish_ingest-refs}

module _ (sha256 : Bytes → String) where
  -- Where the last owner gives up the bytes after an upload of the same bytes has found them in the
  -- store, and before it adds its document, the upload is answered as a duplicate though the bytes
  -- are gone, and the refs file names its document as their owner.
  pub upload_during_release :
      (bytes : Bytes) (options : IngestOptions) (now owner : String) (d : Disk)
      → has (sha256 bytes) d ≡ true
      → read_refs (sha256 bytes) d ≡ owner ∷ []
      → let hash = sha256 bytes in
        let released = (release_ref hash owner d).0 in
        let upload = finish_ingest sha256 (has hash d) bytes options now released in
        (upload.1.1 ≡ true)
        × (has hash upload.0 ≡ false)
        × (read_refs hash upload.0 ≡ options.doc_url ∷ [])
  unfolding release_ref unlink_all has read_refs add_ref finish_ingest
  upload_during_release bytes options now owner d there alone =
      let hash = sha256 bytes in
      let released = (release_ref hash owner d).0 in
      ground (
        arith,
        there,
        alone,
        finish_ingest-objects sha256 bytes options now released true,
        finish_ingest-refs sha256 bytes options now released true,
        get-delete hash hash d.objects,
        get-delete hash hash d.refs,
        get-set hash hash (options.doc_url ∷ []) (delete hash d.refs),
        ==_refl hash,
        ==_refl owner,
      )
