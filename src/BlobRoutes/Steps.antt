-- ===== src/BlobRoutes/Steps.antt =====
-- blobHttp.ts: every request, file and removal keeps the store's statements checked.
use tapes_monorepo.Base.{
  ℕ, String, true, ◌&&◌, List, [], ◌∷◌, inl, inr, Option, some, ◌≡◌, sym, subst, arith, text_eq,
  nat_eq, Bool-cases, Option-cases,
}
use tapes_monorepo.Statements.{HostReceipt, Signed, a_receipt}
use tapes_monorepo.BlobStore.{Bytes, Disk, is_valid_blob_hash, has, release_ref}
use tapes_monorepo.BlobStore.Refinement.{handle_delete}
use tapes_monorepo.StatementUpload.{Reader}
use tapes_monorepo.ClaimIngest.{Signer}
use tapes_monorepo.BlobRoutes.{
  BlobPath, BlobMethod, BlobRequest, handle_delete_request, handle_blob_request, HostStep,
  host_step, host_steps, all_blobs, one_blob, other_path, post_blob, delete_blob, options_blob,
  asked, recorded, collected, named_doc,
}
use tapes_monorepo.BlobRoutes.Vetted.{
  IsVettedStore, release_ref-IsVettedStore, remove-IsVettedStore,
}
use tapes_monorepo.BlobRoutes.Uploads.{put_file-Vetted, handle_upload-Vetted}

-- Canonical JSON is read back; the host's key verifies the receipts that it signs, and none but those
-- that name it.
module _ (reader : Reader) (sha256 : Bytes → String) (signer : Signer)
    (reads : (s : Signed) (bytes : Bytes)
      → reader.write s ≡ some bytes
      → reader.parse bytes ≡ some s)
    (host_key : Option String)
    (signs : (key claim at : String)
      → host_key ≡ some key
      → let r : HostReceipt = record { claim = claim; received_at = at; host_key = key } in
        reader.verify key (a_receipt r) (signer.sign key (a_receipt r)) ≡ true)
    (own_receipts : (key : String) (r : HostReceipt) (signature : String)
      → host_key ≡ some key
      → reader.verify key (a_receipt r) signature ≡ true
      → r.host_key ≡ key)
    (max_blob_bytes max_store_bytes : ℕ) where
  abbrev Vetted : Disk → Type 0
  Vetted = IsVettedStore reader sha256

  handle_delete_request-Vetted :
      (hash : String) (doc : Option String) (d : Disk)
      → Vetted d
      → Vetted (handle_delete_request hash doc d).0
  unfolding handle_delete_request handle_delete
  handle_delete_request-Vetted hash doc d vetted =
      let whole = (handle_delete_request hash doc d).0 in
      elim (Option-cases (named_doc doc)) [
        | inl unowned ↦
            let same : whole ≡ d = ground (arith, unowned) in subst Vetted (sym same) vetted
        | inr (doc_url, owned) ↦ elim (Bool-cases (has hash d)) [
          | inl there ↦
              let same : whole ≡ (release_ref hash doc_url d).0 = ground (arith, owned, there) in
              subst Vetted (sym same)
                (release_ref-IsVettedStore reader sha256 hash doc_url d vetted)
          | inr absent ↦
              let same : whole ≡ d = ground (arith, owned, absent) in subst Vetted (sym same) vetted
        ]
      ]

  abbrev after_request : BlobRequest → String → String → Disk → Disk
  after_request r received_at now d =
      (handle_blob_request reader sha256 signer max_blob_bytes max_store_bytes host_key r
        received_at now d).0

  routed-Vetted :
      (p : BlobPath) (m : BlobMethod) (r : BlobRequest) (received_at now : String) (d : Disk)
      → Vetted d
      → Vetted (after_request (record r { path = p; method = m }) received_at now d)
  unfolding handle_blob_request
  routed-Vetted other_path m r received_at now d vetted = vetted
  routed-Vetted all_blobs options_blob r received_at now d vetted = vetted
  routed-Vetted all_blobs post_blob r received_at now d vetted =
      let asked = record r { path = all_blobs; method = post_blob } in
      elim (Bool-cases r.authorized) [
        | inl yes_token ↦ rw yes_token (
            handle_upload-Vetted reader sha256 signer reads host_key signs own_receipts
              max_blob_bytes max_store_bytes asked received_at now d vetted)
        | inr no_token ↦ rw no_token vetted
      ]
  routed-Vetted all_blobs m r received_at now d vetted =
      let whole = after_request (record r { path = all_blobs; method = m }) received_at now d in
      let same : whole ≡ d = ground arith in subst Vetted (sym same) vetted
  routed-Vetted (one_blob hash) delete_blob r received_at now d vetted =
      elim (Bool-cases (r.authorized && is_valid_blob_hash hash)) [
        | inl granted ↦
            let whole =
              after_request (record r { path = one_blob hash; method = delete_blob }) received_at
                now d in
            let same : whole ≡ (handle_delete_request hash r.doc_param d).0 =
              ground (arith, granted) in
            subst Vetted (sym same) (handle_delete_request-Vetted hash r.doc_param d vetted)
        | inr refused_first ↦
            let whole =
              after_request (record r { path = one_blob hash; method = delete_blob }) received_at
                now d in
            let same : whole ≡ d = ground (arith, refused_first) in subst Vetted (sym same) vetted
      ]
  routed-Vetted (one_blob hash) m r received_at now d vetted =
      let whole = after_request (record r { path = one_blob hash; method = m }) received_at now d in
      let same : whole ≡ d = ground arith in subst Vetted (sym same) vetted

  host_step-Vetted :
      (s : HostStep) (d : Disk)
      → Vetted d
      → Vetted (host_step reader sha256 signer max_blob_bytes max_store_bytes host_key s d)
  unfolding host_step
  host_step-Vetted (asked r received_at now) d vetted =
      routed-Vetted r.path r.method r received_at now d vetted
  host_step-Vetted (recorded outcome ext bytes doc_url claim received_at now) d vetted =
      put_file-Vetted reader sha256 signer reads host_key signs own_receipts max_blob_bytes
        max_store_bytes outcome ext bytes doc_url claim received_at now d vetted
  host_step-Vetted (collected hash) d vetted = remove-IsVettedStore reader sha256 hash d vetted

  -- Whatever a host is asked, records and removes, in any order: each object of its store is filed
  -- under the hash of its bytes, and each one that the store takes for a statement is the canonical
  -- form of one that was signed by the key it names. This is so if it was so before. Canonical JSON
  -- is read back as what was written, and the host's key, if it has one, verifies the receipts that
  -- the host signs with it, and verifies none that names another key.
  pub host_steps-Vetted :
      (steps : List HostStep) (d : Disk)
      → Vetted d
      → Vetted (host_steps reader sha256 signer max_blob_bytes max_store_bytes host_key steps d)
  unfolding host_steps
  host_steps-Vetted [] d vetted = vetted
  host_steps-Vetted (s ∷ rest) d vetted =
      host_steps-Vetted rest
        (host_step reader sha256 signer max_blob_bytes max_store_bytes host_key s d)
        (host_step-Vetted s d vetted)
