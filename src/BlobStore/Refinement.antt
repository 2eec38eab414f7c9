-- ===== src/BlobStore/Refinement.antt =====
-- blobStore.ts and the uploads and deletes of blobHttp.ts refine a record of owners.
use tapes_monorepo.Base.{
  ◌<◌, String, Bool, true, false, not, ◌||◌, List, [], ◌∷◌, ◌++◌, inl, inr, none, some, ◌≡◌, refl,
  arith, eq_iff, if◌then◌else◌, ltb, text_eq, nat_eq, ◌==◌, Bool-cases, Option-cases, is_some,
  length, length-append, filter, length-filter-le, includes, get, get-set, get-delete,
}
use tapes_monorepo.BlobStore.{
  Bytes, Disk, is_valid_blob_hash, has, read_refs, add_ref, unlink_all, release_ref, IngestOptions,
  read_chunks, finish_ingest, ingest_stream,
}
use tapes_monorepo.BlobStore.Ingested.{finish_ingest-objects, finish_ingest-refs}
use tapes_monorepo.BlobStore.Owners.{
  Library, owners_of, is_owned, own, disown, owners-disown, owners-own,
}

pub data StoreCall : Type 0 where
  -- the options, the chunks, and when they have arrived
  upload : IngestOptions → List Bytes → String → StoreCall
  -- a hash and the document that gives it up
  give_up : String → String → StoreCall

pub data StoreAnswer : Type 0 where
  -- whether the bytes were there
  stored : Bool → StoreAnswer
  too_large unknown_blob given_up : StoreAnswer

-- `handleDelete`, behind its test of the document
unfoldable pub handle_delete : String → String → Disk → Disk × StoreAnswer
handle_delete hash doc_url d =
    if has hash d then ((release_ref hash doc_url d).0, given_up) else (d, unknown_blob)

length-includes : (xs : List String) (x : String) → includes xs x ≡ true → 0 < length xs
length-includes [] x h = absurd (ground (arith, h))
length-includes (y ∷ ys) x h = omega arith

filter-same :
    (doc_url : String) (xs : List String)
    → length (filter (λ each. not (each == doc_url)) xs) ≡ length xs
    → filter (λ each. not (each == doc_url)) xs ≡ xs
filter-same doc_url [] h = refl
filter-same doc_url (x ∷ xs) h =
    ground (arith, h, filter-same doc_url xs, length-filter-le (λ each. not (each == doc_url)) xs)

length-zero : {A : Type 0} (xs : List A) → ltb 0 (length xs) ≡ false → xs ≡ []
length-zero [] h = refl
length-zero (x ∷ xs) h = absurd (ground (arith, h))

-- The disk holds an object exactly where someone owns it, and the refs file lists the owners.
abbrev pub Represents : Disk → Library → Type 0
Represents d library =
    (hash : String)
    → (read_refs hash d ≡ owners_of hash library)
      × (is_some (get hash d.objects) ≡ is_owned hash library)
      × (has hash d ≡ is_owned hash library)

-- What a step of the store makes of the refs and of the objects of one hash.
add_ref-Represents :
    (d : Disk) (library : Library) (hash doc_url : String)
    → ((other : String) → read_refs other d ≡ owners_of other library)
    → (other : String)
    → read_refs other (add_ref hash doc_url d) ≡ owners_of other (own hash doc_url library)
unfolding add_ref read_refs
add_ref-Represents d library hash doc_url same other = ground (
  arith,
  owners-own hash other doc_url library,
  same hash,
  same other,
  get-set hash other (read_refs hash d ++ doc_url ∷ []) d.refs,
  eq_iff hash other,
)

is_owned-own :
    (hash other doc_url : String) (library : Library)
    → is_owned other (own hash doc_url library) ≡ (hash == other || is_owned other library)
is_owned-own hash other doc_url library = ground (
  arith,
  owners-own hash other doc_url library,
  length-append (owners_of other library) (doc_url ∷ []),
  length-includes (owners_of other library) doc_url,
)

release_ref-Represents :
    (d : Disk) (library : Library) (hash doc_url : String)
    → Represents d library
    → is_owned hash library ≡ true
    → Represents (release_ref hash doc_url d).0 (disown hash doc_url library)
unfolding release_ref unlink_all read_refs has
release_ref-Represents d library hash doc_url same owned other =
    let refs = owners_of hash library in
    let next = filter (λ each. not (each == doc_url)) refs in
    ground (
      arith,
      same hash,
      same other,
      owners-disown hash other doc_url library,
      get-set hash other next d.refs,
      get-delete hash other d.refs,
      get-delete hash other d.objects,
      filter-same doc_url refs,
      length-zero next,
      eq_iff hash other,
    )

module _ (sha256 : Bytes → String)
    (names : (bytes : Bytes) → is_valid_blob_hash (sha256 bytes) ≡ true) where
  unfoldable pub store_call : StoreCall → Disk → Disk × StoreAnswer
  unfolding handle_delete ingest_stream
  store_call (upload options chunks now) d =
      let (after, result) = ingest_stream sha256 chunks options now d in
      (after, elim result [ none ↦ too_large | some (meta, deduped) ↦ stored deduped ])
  store_call (give_up hash doc_url) d = handle_delete hash doc_url d

  unfoldable pub store_calls : List StoreCall → Disk → List StoreAnswer
  store_calls [] d = []
  store_calls (c ∷ cs) d = let (after, answer) = store_call c d in answer ∷ store_calls cs after

  abbrev pub library_call : StoreCall → Library → Library × StoreAnswer
  library_call (upload options chunks now) library = elim (read_chunks options.max_bytes 0 chunks) [
    | none ↦ (library, too_large)
    | some bytes ↦
        (own (sha256 bytes) options.doc_url library, stored (is_owned (sha256 bytes) library))
  ]
  library_call (give_up hash doc_url) library =
      if is_owned hash library
      then (disown hash doc_url library, given_up)
      else (library, unknown_blob)

  unfoldable pub library_calls : List StoreCall → Library → List StoreAnswer
  library_calls [] library = []
  library_calls (c ∷ cs) library =
      let (after, answer) = library_call c library in answer ∷ library_calls cs after

  finish_ingest-Represents :
      (bytes : Bytes) (options : IngestOptions) (now : String) (d : Disk) (library : Library)
      → Represents d library
      → Represents
          (finish_ingest sha256 (has (sha256 bytes) d) bytes options now d).0
          (own (sha256 bytes) options.doc_url library)
  unfolding has read_refs
  finish_ingest-Represents bytes options now d library same other =
      let hash = sha256 bytes in
      let known = has hash d in
      ground (
        arith,
        finish_ingest-refs sha256 bytes options now d known,
        finish_ingest-objects sha256 bytes options now d known,
        add_ref-Represents d library hash options.doc_url (λ h. (same h).0) other,
        is_owned-own hash other options.doc_url library,
        same hash,
        same other,
        names bytes,
        get-set hash other bytes d.objects,
        eq_iff hash other,
      )

  library_call-Represents :
      (c : StoreCall) (d : Disk) (library : Library)
      → Represents d library
      → ((store_call c d).1 ≡ (library_call c library).1)
        × Represents (store_call c d).0 (library_call c library).0
  unfolding store_call
  library_call-Represents (upload options chunks now) d library same =
      elim (Option-cases (read_chunks options.max_bytes 0 chunks)) [
        | inl large ↦ (ground (arith, large), λ other. ground (arith, large, same other))
        | inr (bytes, read) ↦ (
          ground (arith, read, same (sha256 bytes)),
          λ other.
              ground (arith, read, finish_ingest-Represents bytes options now d library same other),
        )
      ]
  library_call-Represents (give_up hash doc_url) d library same =
      elim (Bool-cases (is_owned hash library)) [
        | inl owned ↦ (
          ground (arith, owned, same hash),
          λ other. ground (
            arith,
            owned,
            same hash,
            release_ref-Represents d library hash doc_url same owned other,
          ),
        )
        | inr unowned ↦ (
          ground (arith, unowned, same hash),
          λ other. ground (arith, unowned, same hash, same other),
        )
      ]

  -- Whatever is uploaded and given up, in any order, the store answers as a record of who owns which
  -- hash: an upload adds its document to the owners and tells whether there were any; bytes that
  -- are given up are there until their last owner has gone. The disk represents the record at first.
  pub store_calls_refine :
      (calls : List StoreCall) (d : Disk) (library : Library)
      → Represents d library
      → store_calls calls d ≡ library_calls calls library
  unfolding store_calls library_calls
  store_calls_refine [] d library same = refl
  store_calls_refine (c ∷ cs) d library same =
      let (answers, after) = library_call-Represents c d library same in
      ground
        (arith, answers, store_calls_refine cs (store_call c d).0 (library_call c library).0 after)
