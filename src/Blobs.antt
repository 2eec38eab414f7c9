-- ===== src/Blobs.antt =====
-- Which blobs a host may delete (apps/electron-client/src/blobGc.ts).
pub mod Collected
use tapes_monorepo.Base.{
  ℕ, ◌+◌, ◌*◌, String, Bool, true, false, not, ◌&&◌, List, [], ◌∷◌, ◌++◌, Option, none, some,
  if◌then◌else◌, ltb, text_eq, nat_eq, ◌==◌, is_some, length, any, includes, add, set,
}

abbrev pub default_grace_ms : ℕ
default_grace_ms = 24 * 60 * 60 * 1000

pub record StoredObject : Type 0 where
  pub hash : String
  pub size : ℕ
  pub ctime_ms : ℕ
  pub nlink : ℕ

-- A document as the walk reads it. An entry that is no text is left out here; `recordings` is absent
-- where the field is no array.
pub record Doc : Type 0 where
  pub recordings : Option (List String)
  pub blob_hash : Option String
  pub statements : List String

pub record BlobGcResult : Type 0 where
  pub scanned : ℕ
  pub live : ℕ
  pub swept : List String
  pub skipped_young : ℕ
  pub reclaimed_bytes : ℕ
  pub still_hardlinked : ℕ
  pub roots : List String
  pub is_aborted : Bool

pub record Marked : Type 0 where
  pub roots : List String
  pub recording_urls : List String

abbrev pub is_root_doc : Doc → Bool
is_root_doc doc = is_some doc.recordings

unfoldable pub add_all : List String → List String → List String
add_all [] set = set
add_all (x ∷ xs) set = add_all xs (add set x)

unfoldable pub mark_root : String → Doc → Marked → Marked
unfolding add_all
mark_root url doc m = elim doc.recordings [
  | none ↦ m
  | some recordings ↦ record {
    roots = m.roots ++ url ∷ [];
    recording_urls = add_all recordings m.recording_urls;
  }
]

unfoldable pub mark_recording : Doc → List String → List String
unfolding add_all
mark_recording doc live =
    add_all doc.statements (elim doc.blob_hash [ none ↦ live | some hash ↦ add live hash ])

-- `find_doc` is the document, or nothing where it does not resolve.
module _ (find_doc : String → Option Doc) where
  -- The loop over candidates. There is nothing where a root that was announced does not resolve.
  unfoldable pub mark_roots : List String → List String → Marked → Option Marked
  unfolding mark_root
  mark_roots seed_roots [] m = some m
  mark_roots seed_roots (url ∷ candidates) m = elim (find_doc url) [
    | some doc ↦ mark_roots seed_roots candidates (mark_root url doc m)
    | none ↦
        let rest = mark_roots seed_roots candidates m in
        if includes seed_roots url then none else rest
  ]

  -- The loop over recordings. There is nothing where one does not resolve.
  unfoldable pub mark_live : List String → List String → Option (List String)
  unfolding mark_recording
  mark_live [] live = some live
  mark_live (url ∷ urls) live = elim (find_doc url) [
    | none ↦ none
    | some doc ↦ mark_live urls (mark_recording doc live)
  ]

  -- `is_statement` is whether an object is stored as a signed statement, `refs` the documents that it
  -- was stored for, and `removes` whether there was an object to remove.
  module _ (is_statement : String → Bool) (refs : String → List String)
      (removes : String → Bool) where
    abbrev pub is_owned_statement : List String → String → Bool
    is_owned_statement owner_urls hash = is_statement hash && any (includes owner_urls) (refs hash)

    abbrev pub record_swept : StoredObject → BlobGcResult → BlobGcResult
    record_swept o r =
        if ltb 1 o.nlink
        then record r { swept = r.swept ++ o.hash ∷ []; still_hardlinked = r.still_hardlinked + 1 }
        else record r {
          swept = r.swept ++ o.hash ∷ [];
          reclaimed_bytes = r.reclaimed_bytes + o.size;
        }

    unfoldable pub sweep_object :
        List String → List String → ℕ → ℕ → StoredObject → BlobGcResult → BlobGcResult
    sweep_object live owner_urls grace_ms now o r =
        if includes live o.hash
        then r
        else if ltb now (o.ctime_ms + grace_ms)
        then record r { skipped_young = r.skipped_young + 1 }
        else if is_owned_statement owner_urls o.hash
        then r
        else if removes o.hash
        then record_swept o r
        else r

    unfoldable pub sweep_objects :
        List String → List String → ℕ → ℕ → List StoredObject → BlobGcResult → BlobGcResult
    unfolding sweep_object
    sweep_objects live owner_urls grace_ms now [] r = r
    sweep_objects live owner_urls grace_ms now (o ∷ os) r =
        sweep_objects live owner_urls grace_ms now os
          (sweep_object live owner_urls grace_ms now o r)

    abbrev pub blank : List StoredObject → Bool → BlobGcResult
    blank objects aborted = record {
      scanned = length objects;
      live = 0;
      swept = [];
      skipped_young = 0;
      reclaimed_bytes = 0;
      still_hardlinked = 0;
      roots = [];
      is_aborted = aborted;
    }

    -- `collectOrphanedBlobs`, over the objects of the store and the documents found on the disk
    unfoldable pub collect_orphaned_blobs :
        List StoredObject → List String → List String → ℕ → ℕ → BlobGcResult
    unfolding mark_roots mark_live sweep_objects
    collect_orphaned_blobs objects seed_roots stored_urls grace_ms now =
        elim (mark_roots seed_roots (add_all stored_urls (add_all seed_roots []))
          (record { roots = []; recording_urls = [] })) [
            | none ↦ blank objects true
            | some m ↦
                let marked : Option (List String) = mark_live m.recording_urls [] in
                if length m.roots == 0 && not (length objects == 0)
                then blank objects true
                else elim marked [
                  | none ↦ blank objects true
                  | some live ↦
                      sweep_objects live (add_all m.roots (add_all m.recording_urls [])) grace_ms
                        now objects
                        (record (blank objects false) { live = length live; roots = m.roots })
                ]
          ]
