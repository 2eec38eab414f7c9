-- ===== src/BlobRoutes/Files.antt =====
-- PutBlobChannel.ts: a file of the host's own recorder keeps the store's statements checked.
use tapes_monorepo.Base.{
  String, Bool, true, false, not, ◌&&◌, [], ◌∷◌, ◌≢◌, inl, inr, none, ◌≡◌, refl, ap, arith, eq_iff,
  if◌then◌else◌, text_eq, nat_eq, ◌==◌, ==_refl, Bool-cases, is_some, or_else, length, All, Dict,
  values, get, set, get-set,
}
use tapes_monorepo.BlobStore.{
  Bytes, BlobMeta, Disk, mime_type_by_extension, mime_type_of_file, has, stat_blob, add_ref,
  finalize_meta, LinkOutcome, ingest_file, link_fails,
}
use tapes_monorepo.StatementUpload.{statement_mime_type, Reader}
use tapes_monorepo.BlobRoutes.Vetted.{IsVettedStore}

get-avoids :
    (key x usual : String) (m : Dict String String)
    → All (λ value. (value == x) ≡ false) (values m)
    → (usual == x) ≡ false
    → (or_else (get key m) usual == x) ≡ false
unfolding get
get-avoids key x usual [] others last = last
get-avoids key x usual ((k, v) ∷ m) others last = elim (Bool-cases (k == key)) [
  | inl same ↦ rw same others.0
  | inr differs ↦ rw differs (get-avoids key x usual m others.1 last)
]

mime_type_of_file-differs : (ext : String) → (mime_type_of_file ext == statement_mime_type) ≡ false
unfolding mime_type_of_file
mime_type_of_file-differs ext =
    get-avoids ext statement_mime_type "application/octet-stream" mime_type_by_extension
      (refl, (refl, (refl, (refl, (refl, (refl, (refl, tt))))))) refl

module _ (reader : Reader) (sha256 : Bytes → String) where
  -- A write of an object and its meta, or of the meta alone, that calls it no statement.
  plain_write-IsVettedStore :
      (bytes : Bytes) (fresh : BlobMeta) (put written : Bool) (d e : Disk)
      → fresh.mime_type ≢ statement_mime_type
      → e.objects ≡ (if put then set (sha256 bytes) bytes d.objects else d.objects)
      → e.metas ≡ (if written then set (sha256 bytes) fresh d.metas else d.metas)
      → (put ≡ true → written ≡ true)
      → IsVettedStore reader sha256 d
      → IsVettedStore reader sha256 e
  plain_write-IsVettedStore bytes fresh put written d e plain objects metas both vetted hash held
        there =
      let own_hash = sha256 bytes in
      let old_file = get-set own_hash hash bytes d.objects in
      let old_meta = get-set own_hash hash fresh d.metas in
      elim (Bool-cases (own_hash == hash && written)) [
        | inl over ↦ elim (Bool-cases put) [
          | inl new ↦ (
            ground (arith, there, objects, new, over, old_file, eq_iff own_hash hash),
            fresh,
            ground (arith, metas, over, old_meta),
            λ kind. absurd (plain kind),
          )
          | inr kept ↦
              let (filed, meta, found, sound) =
                vetted hash held (ground (arith, there, objects, kept)) in
              (filed, fresh, ground (arith, metas, over, old_meta), λ kind. absurd (plain kind))
        ]
        | inr beside ↦
            let (filed, meta, found, sound) =
              vetted hash held (ground (arith, there, objects, beside, both, old_file)) in
            (filed, meta, ground (arith, metas, beside, found, old_meta), sound)
      ]

  mime_type_of_file-plain : (ext : String) → mime_type_of_file ext ≢ statement_mime_type
  mime_type_of_file-plain ext h =
      let same = ap (λ kind. kind == statement_mime_type) h in
      absurd (ground (arith, same, mime_type_of_file-differs ext, ==_refl statement_mime_type))

  abbrev is_written : LinkOutcome → Bool
  is_written link_fails = false
  is_written _ = true

  abbrev file_meta : String → Bytes → String → BlobMeta
  file_meta ext bytes now = record {
    hash = sha256 bytes;
    size = length bytes;
    mime_type = mime_type_of_file ext;
    ext = ext;
    created_at = now;
  }

  file_objects :
      (outcome : LinkOutcome) (ext : String) (bytes : Bytes) (doc_url now : String) (d : Disk)
      → (ingest_file sha256 outcome ext bytes none doc_url now d).0.objects ≡ (
          if not (has (sha256 bytes) d) && is_written outcome
          then set (sha256 bytes) bytes d.objects
          else d.objects)
  unfolding ingest_file finalize_meta add_ref
  file_objects outcome ext bytes doc_url now d = elim (Bool-cases (has (sha256 bytes) d)) [
    | inl old ↦ ground (arith, old)
    | inr new ↦ ground (arith, new)
  ]

  file_metas :
      (outcome : LinkOutcome) (ext : String) (bytes : Bytes) (doc_url now : String) (d : Disk)
      → (ingest_file sha256 outcome ext bytes none doc_url now d).0.metas ≡ (
          if (if has (sha256 bytes) d
            then not (is_some (stat_blob (sha256 bytes) d))
            else is_written outcome)
          then set (sha256 bytes) (file_meta ext bytes now) d.metas
          else d.metas)
  unfolding ingest_file finalize_meta add_ref stat_blob
  file_metas outcome ext bytes doc_url now d = elim (Bool-cases (has (sha256 bytes) d)) [
    | inl old ↦ ground (arith, old)
    | inr new ↦ ground (arith, new)
  ]

  pub ingest_file-IsVettedStore :
      (outcome : LinkOutcome) (ext : String) (bytes : Bytes) (doc_url now : String) (d : Disk)
      → IsVettedStore reader sha256 d
      → IsVettedStore reader sha256 (ingest_file sha256 outcome ext bytes none doc_url now d).0
  unfolding ingest_file finalize_meta add_ref
  ingest_file-IsVettedStore outcome ext bytes doc_url now d vetted =
      let fresh = file_meta ext bytes now in
      let after = (ingest_file sha256 outcome ext bytes none doc_url now d).0 in
      let put = not (has (sha256 bytes) d) && is_written outcome in
      let written =
        if has (sha256 bytes) d
        then not (is_some (stat_blob (sha256 bytes) d))
        else is_written outcome in
      plain_write-IsVettedStore bytes fresh put written d after (mime_type_of_file-plain ext)
        (file_objects outcome ext bytes doc_url now d) (file_metas outcome ext bytes doc_url now d)
        (ground arith) vetted
