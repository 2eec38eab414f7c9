-- ===== src/Listings/Delivered.antt =====
-- vouchRevocation.ts: the recordings that are reported to list a revocation.
use tapes_monorepo.Base.{
  String, Bool, true, false, ◌&&◌, List, [], ◌∷◌, ◌++◌, append-nil, Option, none, some, ◌≡◌, ap,
  arith, eq_iff, text_eq, nat_eq, ==_refl, is_some, or_else, list_eq, All, includes,
  includes-append, get, get-set,
}
use tapes_monorepo.BlobStore.{
  Bytes, Disk, is_valid_blob_hash, has, read_refs, add_ref, read_chunks, finish_ingest,
  ingest_stream,
}
use tapes_monorepo.BlobStore.Ingested.{finish_ingest-objects, finish_ingest-refs, ingest_stream_lem}
use tapes_monorepo.ClaimIngest.{statement_options}
use tapes_monorepo.Listings.{
  Docs, push_statement, store_revocation, visit_for_revocation, list_device_revocation,
}
use tapes_monorepo.Listings.Loop.{visit_all-All}

-- whether a recording lists a statement
abbrev pub lists : String → String → Docs → Bool
lists url address docs = elim (get url docs) [
  | none ↦ false
  | some statements ↦ includes statements address
]

pub lists-push :
    (u url address : String) (docs : Docs)
    → lists u address docs ≡ true
    → lists u address (push_statement url address docs) ≡ true
unfolding push_statement
lists-push u url address docs h =
    let statements = or_else (get url docs) [] in
    ground (
      arith,
      h,
      get-set url u (statements ++ address ∷ []) docs,
      eq_iff url u,
      includes-append statements (address ∷ []) address,
    )

pub push-lists :
    (url address : String) (docs : Docs)
    → is_some (get url docs) ≡ true
    → lists url address (push_statement url address docs) ≡ true
unfolding push_statement
push-lists url address docs h =
    let statements = or_else (get url docs) [] in
    ground (
      arith,
      h,
      get-set url url (statements ++ address ∷ []) docs,
      ==_refl url,
      ==_refl address,
      includes-append statements (address ∷ []) address,
    )

module _ (sha256 : Bytes → String)
    (names : (bytes : Bytes) → is_valid_blob_hash (sha256 bytes) ≡ true) (opens : String → Bool)
    (writes : String → Bool) (now : String) (bytes : Bytes) (address device_link : String) where
  -- the store has the bytes, for this recording
  abbrev pub keeps_for : String → Disk → Bool
  keeps_for url d = has (sha256 bytes) d && includes (read_refs (sha256 bytes) d) url

  abbrev pub is_delivered : String → Docs × Disk → Bool
  is_delivered url (docs, d) = lists url address docs && keeps_for url d

  finish_ingest-keeps_for :
      (u url : String) (d : Disk)
      → keeps_for u d ≡ true
      → keeps_for u (finish_ingest sha256 true bytes (statement_options url) now d).0 ≡ true
  unfolding has read_refs add_ref
  finish_ingest-keeps_for u url d h =
      let hash = sha256 bytes in
      let refs = or_else (get hash d.refs) [] in
      ground (
        arith,
        h,
        finish_ingest-objects sha256 bytes (statement_options url) now d true,
        finish_ingest-refs sha256 bytes (statement_options url) now d true,
        get-set hash hash (refs ++ url ∷ []) d.refs,
        ==_refl hash,
        includes-append refs (url ∷ []) u,
      )

  store_revocation-keeps :
      (u url : String) (d : Disk)
      → keeps_for u d ≡ true
      → keeps_for u (store_revocation opens sha256 writes now bytes address device_link url d).0
        ≡ true
  unfolding ingest_stream
  store_revocation-keeps u url d h =
      let known : has (sha256 bytes) d ≡ true = ground (arith, h) in
      ground (arith, h, known, append-nil bytes, finish_ingest-keeps_for u url d h)

  store_revocation-stores :
      (url : String) (d : Disk)
      → (store_revocation opens sha256 writes now bytes address device_link url d).1 ≡ true
      → keeps_for url (store_revocation opens sha256 writes now bytes address device_link url d).0
        ≡ true
  store_revocation-stores url d taken =
      let options = statement_options url in
      let read : read_chunks none 0 (bytes ∷ []) ≡ some bytes = ap some (append-nil bytes) in
      let stored = ingest_stream_lem sha256 names (bytes ∷ []) options now d bytes read in
      ground (arith, taken, stored.1, stored.2)

  visit_delivers :
      (url : String) (s : Docs × Disk)
      → (visit_for_revocation opens sha256 writes now bytes address device_link url s).1 ≡ true
      → is_delivered url
          (visit_for_revocation opens sha256 writes now bytes address device_link url s).0
        ≡ true
  unfolding visit_for_revocation
  visit_delivers url (docs, d) listed =
      ground (arith, listed, store_revocation-stores url d, push-lists url address docs)

  visit_keeps :
      (u url : String) (s : Docs × Disk)
      → is_delivered u s ≡ true
      → is_delivered u
          (visit_for_revocation opens sha256 writes now bytes address device_link url s).0
        ≡ true
  unfolding visit_for_revocation
  visit_keeps u url (docs, d) h =
      ground (arith, h, store_revocation-keeps u url d, lists-push u url address docs)

  -- Each recording that is reported to list the host's revocation lists it, and the host's store has
  -- the revocation and keeps it for that recording, where hashes have the form of one.
  pub list_device_revocation_lem :
      (entries : List (Option String)) (docs : Docs) (d : Disk)
      → let (after, listed) =
          list_device_revocation opens sha256 writes now bytes address device_link
            (some entries)
            (docs, d) in
        All (λ url. is_delivered url after ≡ true) (or_else listed [])
  unfolding list_device_revocation
  list_device_revocation_lem entries docs d =
      visit_all-All (visit_for_revocation opens sha256 writes now bytes address device_link)
        (λ url s. is_delivered url s ≡ true) visit_delivers visit_keeps entries (docs, d)
