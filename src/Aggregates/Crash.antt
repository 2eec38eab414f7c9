-- ===== src/Aggregates/Crash.antt =====
-- aggregates.ts: what a crash after a failed write of the baseline costs.
use tapes_monorepo.Base.{
  ℕ, ◌+◌, ◌≤◌, String, Bool, true, false, [], ◌∷◌, none, ◌≡◌, nat_eq, text_eq, Float, ltb, arith,
  nat_beq_iff,
}
use tapes_monorepo.EventStore.{
  Segment, segment_end_ms, read_segment, sweep, sweep_segments, sweep_segment,
}
use tapes_monorepo.Aggregates.{
  AggregateStore, rebuild, Host, sweep_aggregates, plays, read_baseline, fold_events, fold_segment,
  write_baseline, settle,
}
use tapes_monorepo.Aggregates.Counts.{counted, live_plays, weight, plays-derive}
use tapes_monorepo.Aggregates.Replay.{rebuilt}

module _ (f : Float) where
  open f use {Num}

  abbrev no_writes : ℕ → Bool
  no_writes day = false

  -- A host that has folded nothing yet, with one segment on its disk.
  abbrev pub unfolded : AggregateStore f
  unfolded = record { baseline = []; folded_segments = []; rollup = []; opened = true; file = none }

  abbrev pub one_segment : Segment Num → Host f
  one_segment s = record {
    aggregates = unfolded;
    events = record { seen = []; opened = true; disk = s ∷ [] };
  }

  -- Two sweeps whose writes of the baseline fail.
  abbrev pub swept_twice : Segment Num → ℕ → ℕ → ℕ → Host f
  swept_twice s max_age now later =
      sweep_aggregates f max_age later no_writes false
        (sweep_aggregates f max_age now no_writes false (one_segment s))

  -- After the first sweep the segment is folded in memory, and is on the disk alone.
  abbrev folded_in_memory : Segment Num → Host f
  folded_in_memory s = record {
    aggregates = record unfolded {
      baseline = fold_events f (read_segment f s.lines) [];
      folded_segments = s.day ∷ [];
    };
    events = record { seen = []; opened = true; disk = s ∷ [] };
  }

  expired : (end now : ℕ) → end ≤ now → ltb now end ≡ false
  expired end now h = ground arith

  first_sweep :
      (s : Segment Num) (max_age now : ℕ)
      → segment_end_ms s.day + max_age ≤ now
      → sweep_aggregates f max_age now no_writes false (one_segment s) ≡ folded_in_memory s
  unfolding sweep_aggregates sweep sweep_segments sweep_segment fold_segment write_baseline settle
  first_sweep s max_age now old = rw (expired (segment_end_ms s.day + max_age) now old)

  second_sweep :
      (s : Segment Num) (max_age later : ℕ)
      → segment_end_ms s.day + max_age ≤ later
      → let h = sweep_aggregates f max_age later no_writes false (folded_in_memory s) in
        (h.aggregates.file ≡ none) × (h.events.disk ≡ [])
  unfolding sweep_aggregates sweep sweep_segments sweep_segment fold_segment write_baseline settle
  second_sweep s max_age later old =
      ground (arith, expired (segment_end_ms s.day + max_age) later old, nat_beq_iff s.day s.day)

  rebuild_empty :
      (a : AggregateStore f) (url : String)
      → a.file ≡ none
      → plays f url (rebuild f a []).rollup ≡ 0
  unfolding rebuild read_baseline live_plays weight
  rebuild_empty a url h = ground (arith, h, plays-derive f url (read_baseline f a) [])

  -- Where the write of the baseline fails in two sweeps in a row, the second sweep deletes the
  -- expired segment though its plays are not in the file: a launch after that reports no plays of
  -- any recording, though the log had them all.
  pub plays_lost :
      (s : Segment Num) (max_age now later : ℕ) (url : String)
      → segment_end_ms s.day + max_age ≤ now
      → now ≤ later
      → let h = swept_twice s max_age now later in
        (rebuilt f url h ≡ 0)
        × (rebuilt f url (one_segment s) ≡ counted url (read_segment f s.lines))
  unfolding rebuild read_baseline live_plays weight
  plays_lost s max_age now later url old ordered =
      let ends = second_sweep s max_age later (omega arith) in
      (
        rw (first_sweep s max_age now old, ends.1)
            (rebuild_empty
              (sweep_aggregates f max_age later no_writes false (folded_in_memory s)).aggregates url
              ends.0),
        omega (arith, plays-derive f url unfolded (s ∷ [])),
      )
