-- ===== src/Aggregates.antt =====
-- Per-recording play counts (apps/electron-client/src/aggregates.ts): folds over the event log, and
-- the frozen baseline that takes in what retention deletes.
pub mod Counts
pub mod Days
pub mod Lifetime
pub mod Replay
pub mod Crash
pub mod Filed
pub mod Swept
use tapes_monorepo.Base.{
  ℕ, ◌+◌, String, Bool, true, not, ◌&&◌, List, [], ◌∷◌, Option, none, some, if◌then◌else◌, ◌==◌,
  nat_eq, text_eq, or_else, filter, any, includes, add, without, Dict, get, set, Float,
  clamp_finite, map,
}
use tapes_monorepo.EventStore.{StoredEvent, Segment, EventStore, replay, sweep, after_sweep}

module _ (f : Float) where
  open f use {Num, zero_num, plus, over}

  pub record Totals : Type 0 where
    pub plays : ℕ
    pub completion_sum : Num

  abbrev pub empty_totals : Totals
  empty_totals = record { plays = 0; completion_sum = zero_num }

  unfoldable pub fold : Totals → StoredEvent Num → Totals
  fold totals e = record {
    plays = totals.plays + 1;
    completion_sum = plus totals.completion_sum (clamp_finite f e.completion);
  }

  abbrev pub Rollup : Type 0
  Rollup = Dict String Totals

  abbrev pub totals_of : String → Rollup → Totals
  totals_of url m = or_else (get url m) empty_totals

  -- `add`
  unfoldable pub add_totals : Rollup → String → Totals → Rollup
  add_totals into url totals =
      let current = totals_of url into in
      set url
        (record {
          plays = current.plays + totals.plays;
          completion_sum = plus current.completion_sum totals.completion_sum;
        })
        into

  unfoldable pub seed_rollup : List (String × Totals) → Rollup → Rollup
  seed_rollup [] m = m
  seed_rollup ((url, totals) ∷ seed) m = seed_rollup seed (add_totals m url totals)

  -- The loop over events, which `deriveAggregates`, `record` and the hook of `sweep` share.
  unfoldable pub fold_events : List (StoredEvent Num) → Rollup → Rollup
  fold_events [] m = m
  fold_events (e ∷ es) m =
      fold_events es (set e.recording_url (fold (totals_of e.recording_url m) e) m)

  unfoldable pub derive_aggregates : List (StoredEvent Num) → List (String × Totals) → Rollup
  derive_aggregates events seed = fold_events events (seed_rollup seed [])

  -- `aggregates.json`
  pub record BaselineFile : Type 0 where
    pub folded_segments : List ℕ
    pub recordings : Rollup

  pub record AggregateStore : Type 0 where
    pub baseline : Rollup
    pub folded_segments : List ℕ
    pub rollup : Rollup
    pub opened : Bool
    pub file : Option BaselineFile

  -- An entry of the file that is kept: a url, and a finite sum.
  abbrev pub is_kept : String × Totals → Bool
  is_kept (url, totals) = not (url == "") && f.is_finite totals.completion_sum

  unfoldable pub read_entries : List (String × Totals) → Rollup → Rollup
  read_entries [] m = m
  read_entries ((url, totals) ∷ entries) m =
      read_entries entries (if is_kept (url, totals) then set url totals m else m)

  unfoldable pub add_names : List ℕ → List ℕ → List ℕ
  add_names [] names = names
  add_names (day ∷ days) names = add_names days (add names day)

  unfoldable pub read_baseline : AggregateStore → AggregateStore
  unfolding read_entries add_names
  read_baseline a = elim a.file [
    | none ↦ record a { baseline = []; folded_segments = [] }
    | some file ↦ record a {
      baseline = read_entries file.recordings [];
      folded_segments = add_names file.folded_segments [];
    }
  ]

  -- The file is written whole and renamed into place, so a write that throws leaves the old one.
  unfoldable pub write_baseline : AggregateStore → Bool → AggregateStore
  write_baseline a written =
      if written
      then record a {
        file = some (record { folded_segments = a.folded_segments; recordings = a.baseline });
      }
      else a

  -- `listSegments`, without the segments that the baseline has
  unfoldable pub live_segments : List ℕ → List (Segment Num) → List (Segment Num)
  live_segments folded = filter (λ s. not (includes folded s.day))

  unfoldable pub derive : AggregateStore → List (Segment Num) → Rollup
  unfolding live_segments derive_aggregates
  derive a disk = derive_aggregates (replay f (live_segments a.folded_segments disk)) a.baseline

  unfoldable pub rebuild : AggregateStore → List (Segment Num) → AggregateStore
  rebuild a disk =
      let loaded = read_baseline a in record loaded { rollup = derive loaded disk; opened = true }

  unfoldable pub open_aggregates : AggregateStore → List (Segment Num) → AggregateStore
  open_aggregates a disk = if a.opened then a else rebuild a disk

  -- `record`
  unfoldable pub record_events : AggregateStore → List (StoredEvent Num) → AggregateStore
  record_events a accepted = record a { rollup = fold_events accepted a.rollup }

  -- The hook that `sweep` hands to the event store; `writes` says which writes succeed.
  unfoldable pub fold_segment :
      (ℕ → Bool) → AggregateStore → ℕ → List (StoredEvent Num) → AggregateStore × Bool
  fold_segment writes a day expiring = if includes a.folded_segments day then (a, true) else (
    write_baseline
        (record a {
          baseline = fold_events expiring a.baseline;
          folded_segments = add a.folded_segments day;
        })
        (writes day),
    writes day,
  )

  unfoldable pub drop_names : List ℕ → List ℕ → List ℕ
  drop_names [] names = names
  drop_names (day ∷ days) names = drop_names days (without day names)

  -- The end of `sweep`: the names of the files that are gone.
  unfoldable pub settle : List ℕ → AggregateStore → Bool → AggregateStore
  settle removed a written =
      if any (includes a.folded_segments) removed
      then write_baseline (record a { folded_segments = drop_names removed a.folded_segments })
          written
      else a

  pub record Host : Type 0 where
    pub aggregates : AggregateStore
    pub events : EventStore Num

  unfoldable pub sweep_aggregates : ℕ → ℕ → (ℕ → Bool) → Bool → Host → Host
  sweep_aggregates max_age now writes settles h =
      let w = sweep f (fold_segment writes) max_age now h.aggregates h.events in
      record {
        aggregates = settle w.removed w.hook settles;
        events = after_sweep f (fold_segment writes) h.events w;
      }

  pub record RecordingAggregate : Type 0 where
    pub recording_url : String
    pub plays : ℕ
    pub average_completion : Num

  unfoldable pub to_aggregate : String → Totals → RecordingAggregate
  to_aggregate url totals = record {
    recording_url = url;
    plays = totals.plays;
    average_completion =
        if totals.plays == 0 then zero_num else over totals.completion_sum totals.plays;
  }

  -- `get`, and `all` and `frozen` over the rollup and the baseline
  unfoldable pub get_aggregate : String → AggregateStore → Option RecordingAggregate
  unfolding to_aggregate
  get_aggregate url a = elim (get url a.rollup) [
    | none ↦ none
    | some totals ↦ some (to_aggregate url totals)
  ]

  unfoldable pub all_aggregates : Rollup → List RecordingAggregate
  unfolding to_aggregate
  all_aggregates = map (λ (url, totals). to_aggregate url totals)

  -- The plays that a reader gets; a recording with none is absent.
  abbrev pub plays : String → Rollup → ℕ
  plays url m = (totals_of url m).plays
