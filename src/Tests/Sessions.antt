-- ===== src/Tests/Sessions.antt =====
-- sessionRecorder.ts, blobGc.ts, parseRange, blobCache.ts and the rate limiter of eventHttp.ts on small
-- inputs.
use tapes_monorepo.Base.{
  ℕ, ◌+◌, ◌-◌, ◌*◌, ◌≤◌, String, Bool, true, false, List, [], ◌∷◌, ◌⊎◌, Option, none, some, ◌≡◌,
  refl, if◌then◌else◌, text_eq, nat_eq, indicator, length, All, includes,
}
use tapes_monorepo.Statements.{SessionRecord}
use tapes_monorepo.Connections.{SyncConnection}
use tapes_monorepo.Sessions.{
  Tracked, SessionRecorder, is_live, is_present, track, new_session, session_record,
}
use tapes_monorepo.Sessions.Spans.{track_lem}
use tapes_monorepo.Blobs.{StoredObject, Doc, collect_orphaned_blobs}
use tapes_monorepo.Blobs.Collected.{collect_orphaned_blobs-keeps}
use tapes_monorepo.Ranges.{match_range, parse_range, minus_one, ok, unsatisfiable}
use tapes_monorepo.Ranges.Served.{in_answer, asked, parse_range-in_answer}
use tapes_monorepo.Cache.{CacheIndex, total_size, unpinned, select_evictions, select_evictions_lem}
use tapes_monorepo.EventHttp.Limiter.{take, take_all, total, take_all-bounded}

abbrev phone : SyncConnection
phone = record {
  id = 1;
  label = some "Phone";
  address = none;
  connected_at = 500;
  self = false;
  device_key = some "phone-key";
}

abbrev opened : Tracked
opened = new_session "s" "doc" 1000

abbrev with_phone : Tracked
with_phone = track 1000 (phone ∷ []) opened

track_example : is_live 1 (track 2000 [] with_phone).spans ≡ is_present [] 1
track_example = track_lem 2000 [] with_phone 1

abbrev closing_recorder : SessionRecorder
closing_recorder = record { current = none; closing = ("s", (opened, 3000)) ∷ [] }

abbrev write_time : ℕ → String
write_time n = "now"

abbrev signed_record : SessionRecord
signed_record = session_record write_time "host" opened 3000

abbrev library : Doc
library = record { recordings = some ("take" ∷ []); blob_hash = none; statements = [] }

abbrev take_doc : Doc
take_doc = record { recordings = none; blob_hash = some "audio"; statements = "claim" ∷ [] }

abbrev find_doc : String → Option Doc
find_doc url = if text_eq.same url "library" then some library else some take_doc

abbrev stored_object : String → StoredObject
stored_object hash = record { hash = hash; size = 10; ctime_ms = 0; nlink = 1 }

abbrev is_statement : String → Bool
is_statement hash = false

abbrev no_refs : String → List String
no_refs hash = []

abbrev removes : String → Bool
removes hash = true

collect_orphaned_blobs-keeps_example :
    includes
      (collect_orphaned_blobs find_doc is_statement no_refs removes
        (stored_object "audio" ∷ stored_object "claim" ∷ stored_object "old" ∷ [])
        []
        ("library" ∷ [])
        1000
        5000).swept
      "claim"
    ≡ false
collect_orphaned_blobs-keeps_example =
    collect_orphaned_blobs-keeps find_doc is_statement no_refs removes
      (stored_object "audio" ∷ stored_object "claim" ∷ stored_object "old" ∷ []) [] ("library" ∷ [])
      1000 5000 "library" "take" "claim" library take_doc ("take" ∷ []) refl refl refl refl refl
      refl

abbrev cache_index : CacheIndex
cache_index =
    ("a", record { size = 5; last_played_at = 9 })
    ∷ ("b", record { size = 5; last_played_at = 3 })
    ∷ ("c", record { size = 5; last_played_at = 1 })
    ∷ []

select_evictions_example :
    let evicted = select_evictions cache_index ("c" ∷ []) 10 in
    All (λ x. includes ("c" ∷ []) x.0 ≡ false) evicted
    × ((total_size cache_index - total_size evicted ≤ 10)
        ⊎ (length evicted ≡ length (unpinned ("c" ∷ []) cache_index)))
select_evictions_example = select_evictions_lem cache_index ("c" ∷ []) 10

take_all-bounded_example :
    let (bucket, allowed) = take 2 1 none 0 in
    1000 * (indicator allowed + take_all 2 1 bucket (0 ∷ 0 ∷ 1500 ∷ []))
    ≤ 1000 * 2 + total (0 ∷ 0 ∷ 1500 ∷ []) * 1
take_all-bounded_example = take_all-bounded 2 1 0 (0 ∷ 0 ∷ 1500 ∷ [])

suffix_match : match_range "bytes=-5" ≡ some (none, some 5)
unfolding match_range
suffix_match = refl

pair_match : match_range "bytes=20-4000" ≡ some (some 20, some 4000)
unfolding match_range
pair_match = refl

several_match : match_range "bytes=0-1,3-4" ≡ none
unfolding match_range
several_match = refl

past_the_end : parse_range (some "bytes=99-") 50 ≡ unsatisfiable
unfolding parse_range
past_the_end = refl

suffix_of_nothing : parse_range (some "bytes=-5") 0 ≡ ok 0 minus_one
unfolding parse_range
suffix_of_nothing = refl

parse_range_example :
    in_answer (parse_range (some "bytes=20-4000") 50) 50 49 ≡ asked (some "bytes=20-4000") 50 49
parse_range_example = parse_range-in_answer (some "bytes=20-4000") 50 49
