-- ===== src/Tests/Events.antt =====
-- eventStore.ts and aggregates.ts on a small log.
use tapes_monorepo.Base.{
  ℕ, String, Bool, true, false, List, [], ◌∷◌, map, some, ◌≡◌, refl, arith, text_eq, nat_eq, ◌==◌,
  list_eq, All,
}
use tapes_monorepo.EventStore.{
  admit, open_store, index_events, dedupe_key, PlaybackEvent, Segment, EventStore, segment_day,
  segment_end_ms, append_file, append, has, read_segment, replay, launch, line, torn, nothing_more,
  a_fragment, whole, part,
}
use tapes_monorepo.EventStore.Once.{count_key, IsIndexed}
use tapes_monorepo.EventStore.Keys.{HasNoNul, dedupe_key_inj}
use tapes_monorepo.EventStore.History.{
  Operation, run, IsOrderly, run-IsIndexed, appends, sweeps, relaunches, crashes,
}
use tapes_monorepo.EventStore.AtMostOnce.{IsBounded, IsCareful, run-IsBounded}
use tapes_monorepo.EventStore.Losses.{received, log_of, torn_tail_loses}
use tapes_monorepo.Aggregates.{
  seed_rollup, fold_events, read_baseline, derive, rebuild, Host, sweep_aggregates, plays,
}
use tapes_monorepo.Aggregates.Replay.{rebuilt, take_in, IsInSync, take_in-IsInSync}
use tapes_monorepo.Aggregates.Days.{has_day}
use tapes_monorepo.Aggregates.Swept.{sweep_aggregates-rebuilt}
use tapes_monorepo.Aggregates.Crash.{unfolded, one_segment, swept_twice, plays_lost}
use tapes_monorepo.Aggregates.Counts.{counted}
use tapes_monorepo.Tests.Numbers.{hundredths}

abbrev played : String → PlaybackEvent ℕ
played id = record {
  id = id;
  recording_url = "automerge:a";
  completion = 50;
  occurred_at = "2026-01-01T00:00:00Z";
  device_id = some "phone";
}

abbrev fresh : EventStore ℕ
fresh = record { seen = []; opened = true; disk = [] }

fresh-IsIndexed : IsIndexed hundredths fresh
unfolding count_key replay
fresh-IsIndexed k = refl

-- The second play comes twice, once while the disk fails; the first segment is swept in the end.
abbrev history : List (Operation hundredths)
history =
    appends (played "1" ∷ []) 1000 whole
    ∷ appends (played "2" ∷ []) 2000 (part 0 nothing_more)
    ∷ appends (played "1" ∷ played "2" ∷ []) 3000 whole
    ∷ relaunches
    ∷ sweeps 10 200_000_000 (λ day. true)
    ∷ []

history-IsOrderly : All (IsOrderly hundredths) history
history-IsOrderly =
    (((refl, tt), refl), (((refl, tt), refl), (((refl, (refl, tt)), refl), (tt, (tt, tt)))))

run-IsIndexed_example : IsIndexed hundredths (run hundredths fresh history)
run-IsIndexed_example =
    run-IsIndexed hundredths fresh history history-IsOrderly refl fresh-IsIndexed

-- A crash cuts the second play off, and the third one joins it.
abbrev crashed_history : List (Operation hundredths)
crashed_history =
    appends (played "1" ∷ []) 1000 whole
    ∷ crashes (played "2" ∷ []) 2000 (part 0 a_fragment)
    ∷ appends (played "3" ∷ played "2" ∷ []) 3000 whole
    ∷ []

crashed_history-IsCareful : All (IsCareful hundredths) crashed_history
crashed_history-IsCareful = (((refl, tt), refl), ((refl, tt), (((refl, (refl, tt)), refl), tt)))

fresh-IsBounded : IsBounded hundredths fresh
unfolding count_key replay
fresh-IsBounded k = omega arith

run-IsBounded_example : IsBounded hundredths (run hundredths fresh crashed_history)
run-IsBounded_example =
    run-IsBounded hundredths fresh crashed_history crashed_history-IsCareful fresh-IsBounded

third_is_lost :
    map (λ e. e.event.id) (replay hundredths (run hundredths fresh crashed_history).disk)
    ≡ "1" ∷ "2" ∷ []
unfolding run replay append_file append admit launch open_store index_events dedupe_key read_segment
third_is_lost = refl

abbrev relaunched : EventStore ℕ
relaunched = launch hundredths (append fresh (played "1" ∷ []) 1000 whole).0.disk

abbrev torn_day : Segment ℕ
torn_day = record { day = 0; lines = torn ∷ []; unended = true }

torn_tail_loses_example :
    let (after, result) = append (log_of hundredths torn_day []) (played "1" ∷ []) 1000 whole in
    (result
      ≡ some (record { accepted = received hundredths (played "1") 1000 ∷ []; duplicates = [] }))
    × (has after (played "1") ≡ true)
    × (has (launch hundredths after.disk) (played "1") ≡ false)
unfolding segment_day count_key replay read_segment
torn_tail_loses_example =
    torn_tail_loses hundredths torn_day [] (played "1") 1000 refl refl refl refl

phone-HasNoNul : HasNoNul "ab"
phone-HasNoNul = (λ e. absurd (cc e), (λ e. absurd (cc e), tt))

abbrev device : String
device = "ab"

abbrev one_id : String
one_id = "1"

dedupe_key_inj_example : (device ≡ device) × (one_id ≡ one_id)
dedupe_key_inj_example =
    dedupe_key_inj (some "ab") (some "ab") "1" "1" phone-HasNoNul phone-HasNoNul refl

abbrev day_0 : Segment ℕ
day_0 = record {
  day = 0;
  lines = line (record { event = played "1"; received_at = 1000 }) ∷ torn ∷ [];
  unended = false;
}

abbrev host_0 : Host hundredths
host_0 = one_segment hundredths day_0

abbrev empty_host : Host hundredths
empty_host = record { aggregates = unfolded hundredths; events = fresh }

take_in-IsInSync_example :
    IsInSync hundredths (take_in hundredths empty_host (played "1" ∷ played "2" ∷ []) 1000 whole)
unfolding rebuild read_baseline derive fold_events replay seed_rollup
take_in-IsInSync_example =
    take_in-IsInSync hundredths empty_host (played "1" ∷ played "2" ∷ []) 1000 whole
      (refl, (refl, tt)) refl refl refl (λ url. refl)

plays_lost_example :
    let h = swept_twice hundredths day_0 10 200_000_000 300_000_000 in
    (rebuilt hundredths "automerge:a" h ≡ 0)
    × (rebuilt hundredths "automerge:a" (one_segment hundredths day_0)
        ≡ counted "automerge:a" (read_segment hundredths day_0.lines))
unfolding segment_end_ms
plays_lost_example =
    plays_lost hundredths day_0 10 200_000_000 300_000_000 "automerge:a" (omega arith) (omega arith)

-- The writes of day 1 fail, and the writes of day 0 do not.
abbrev first_day_only : ℕ → Bool
first_day_only day = day == 0

abbrev two_days : EventStore ℕ
two_days = record { seen = []; opened = true; disk = day_0 ∷ record day_0 { day = 1 } ∷ [] }

sweep_aggregates-rebuilt_example :
    let h : Host hundredths = record {
      aggregates = rebuild hundredths (unfolded hundredths) two_days.disk;
      events = two_days;
    } in
    let after = sweep_aggregates hundredths 10 300_000_000 first_day_only true h in
    (rebuilt hundredths "automerge:a" after ≡ rebuilt hundredths "automerge:a" h)
    × (plays hundredths "automerge:a" after.aggregates.rollup ≡ rebuilt hundredths "automerge:a" h)
unfolding has_day
sweep_aggregates-rebuilt_example =
    sweep_aggregates-rebuilt hundredths refl (λ x y finite. refl) (unfolded hundredths) two_days 10
      300_000_000 first_day_only true "automerge:a" refl (refl, (refl, tt))
