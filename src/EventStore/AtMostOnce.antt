-- ===== src/EventStore/AtMostOnce.antt =====
-- eventStore.ts: whole lives of the log with crashes anywhere.
use tapes_monorepo.Base.{
  ℕ, ◌+◌, ◌≤◌, String, Bool, true, false, List, [], ◌∷◌, map, ◌≡◌, arith, text_eq, nat_eq,
  indicator, list_eq, All, includes, Float,
}
use tapes_monorepo.EventStore.{
  PlaybackEvent, StoredEvent, Segment, Written, EventStore, segment_day, admit, append,
  read_segment, replay, open_store, launch, Sweep, start_sweep, sweep_segment, sweep_segments,
  sweep, line,
}
use tapes_monorepo.EventStore.Once.{
  count_key, count_key-append, count_key-admit, includes-forget, forget-admit, held, is_clean,
  write_lines-clean, IsFinite, read_segment-lines, held-snoc, includes-index_events,
}
use tapes_monorepo.EventStore.History.{
  Operation, fold_by, operate, run, appends, sweeps, relaunches, crashes,
}
use tapes_monorepo.EventStore.Torn.{held-append_file-le, held-write_lines-le}

module _ (f : Float) where
  open f use {Num, is_finite}

  -- No key is on the disk twice, and none that the index lacks.
  abbrev pub IsBounded : EventStore Num → Type 0
  IsBounded store = (k : String) → held f k store.disk ≤ indicator (includes store.seen k)

  append-IsBounded :
      (store : EventStore Num) (es : List (PlaybackEvent Num)) (now : ℕ) (written : Written)
      → All (IsFinite f) es
      → is_clean f written ≡ true
      → IsBounded store
      → IsBounded (append store es now written).0
  unfolding append count_key
  append-IsBounded store es now written h clean ok k =
      let lines = map line (admit now es store.seen).accepted in
      ground (
        arith,
        ok k,
        count_key-admit k now es store.seen,
        forget-admit k now es store.seen,
        read_segment-lines f now es store.seen h,
        write_lines-clean f written (segment_day now) lines store.disk clean,
        held-append_file-le f k (segment_day now) lines false store.disk,
      )

  -- what is on the disk after any part of a write
  crash-once :
      (store : EventStore Num) (es : List (PlaybackEvent Num)) (now : ℕ) (written : Written)
      → All (IsFinite f) es
      → IsBounded store
      → (k : String) → held f k (append store es now written).0.disk ≤ 1
  unfolding append count_key
  crash-once store es now written h ok k =
      let lines = map line (admit now es store.seen).accepted in
      ground (
        arith,
        ok k,
        count_key-admit k now es store.seen,
        read_segment-lines f now es store.seen h,
        held-write_lines-le f k written (segment_day now) lines store.disk,
      )

  launch-IsBounded :
      (disk : List (Segment Num)) → ((k : String) → held f k disk ≤ 1) → IsBounded (launch f disk)
  unfolding launch open_store
  launch-IsBounded disk once k =
      ground (arith, once k, includes-index_events f k (replay f disk) [])

  module _ {H : Type 0} (on_segment : H → ℕ → List (StoredEvent Num) → H × Bool) where
    sweep_segments-bounded :
        (max_age now : ℕ) (disk : List (Segment Num)) (w : Sweep f H) (k : String)
        → held f k w.kept + held f k disk ≤ indicator (includes w.seen k)
        → let after = sweep_segments f on_segment max_age now disk w in
          held f k after.kept ≤ indicator (includes after.seen k)
    unfolding sweep_segments sweep_segment replay count_key
    sweep_segments-bounded max_age now [] w k ok = omega (arith, ok)
    sweep_segments-bounded max_age now (s ∷ disk) w k ok =
        sweep_segments-bounded max_age now disk (sweep_segment f on_segment max_age now s w) k (
          ground (
            arith,
            ok,
            held-snoc f on_segment k s w.kept,
            count_key-append k (read_segment f s.lines) (replay f disk),
            includes-forget k (read_segment f s.lines) w.seen,
          ))

  -- A write that fails without a crash leaves nothing.
  abbrev pub IsCareful : Operation f → Type 0
  IsCareful (appends es now written) = All (IsFinite f) es × (is_clean f written ≡ true)
  IsCareful (sweeps max_age now folds) = Unit {0}
  IsCareful relaunches = Unit {0}
  IsCareful (crashes es now written) = All (IsFinite f) es

  operate-IsBounded :
      (store : EventStore Num) (o : Operation f)
      → IsCareful o
      → IsBounded store
      → IsBounded (operate f store o)
  unfolding operate sweep replay count_key
  operate-IsBounded store (appends es now written) (finite, clean) ok =
      append-IsBounded store es now written finite clean ok
  operate-IsBounded store (sweeps max_age now folds) h ok = λ k.
      sweep_segments-bounded (fold_by f folds) max_age now store.disk (start_sweep f tt store) k
        (omega (arith, ok k))
  operate-IsBounded store relaunches h ok = launch-IsBounded store.disk (λ k. ground (arith, ok k))
  operate-IsBounded store (crashes es now written) finite ok =
      launch-IsBounded (append store es now written).0.disk
        (crash-once store es now written finite ok)

  -- Whatever is appended, swept and relaunched, and wherever a crash cuts off a write, so that a tail
  -- without a newline is joined by what is appended next: no event key is on the disk twice, and none
  -- is that the index lacks, if this is so at first. A write that fails without a crash is one that
  -- leaves nothing.
  pub run-IsBounded :
      (store : EventStore Num) (os : List (Operation f))
      → All IsCareful os
      → IsBounded store
      → IsBounded (run f store os)
  unfolding run
  run-IsBounded store [] h ok = ok
  run-IsBounded store (o ∷ os) h ok =
      run-IsBounded (operate f store o) os h.1 (operate-IsBounded store o h.0 ok)
