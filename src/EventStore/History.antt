-- ===== src/EventStore/History.antt =====
-- eventStore.ts over a whole life of the log: appends, sweeps and launches in any order.
use tapes_monorepo.Base.{
  ℕ, Bool, true, false, List, [], ◌∷◌, ◌++◌, ◌≡◌, refl, arith, text_eq, nat_eq, list_eq, All, Float,
}
use tapes_monorepo.EventStore.{
  PlaybackEvent, StoredEvent, Segment, Written, EventStore, append, open_store, launch, Sweep,
  start_sweep, sweep_segment, sweep_segments, sweep, after_sweep,
}
use tapes_monorepo.EventStore.Once.{
  IsIndexed, are_ended, is_clean, IsFinite, append-IsIndexed, append-ended, sweep-IsIndexed,
  launch-IsIndexed,
}

module _ (f : Float) where
  open f use {Num, is_finite}

  pub data Operation : Type 0 where
    appends : List (PlaybackEvent Num) → (now : ℕ) → (written : Written) → Operation
    sweeps : (max_age now : ℕ) → (folds : ℕ → Bool) → Operation
    relaunches : Operation
    -- a crash in the middle of an append, and the next launch
    crashes : List (PlaybackEvent Num) → (now : ℕ) → (written : Written) → Operation

  -- A hook that keeps nothing, and succeeds or throws by the segment.
  abbrev pub fold_by : (ℕ → Bool) → Unit {0} → ℕ → List (StoredEvent Num) → Unit {0} × Bool
  fold_by folds hook day expiring = (tt, folds day)

  unfoldable pub operate : EventStore Num → Operation → EventStore Num
  operate store (appends es now written) = (append store es now written).0
  operate store (sweeps max_age now folds) =
      after_sweep f (fold_by folds) store (sweep f (fold_by folds) max_age now tt store)
  operate store relaunches = launch f store.disk
  operate store (crashes es now written) = launch f (append store es now written).0.disk

  unfoldable pub run : EventStore Num → List Operation → EventStore Num
  unfolding operate
  run store [] = store
  run store (o ∷ os) = run (operate store o) os

  -- The ingest route clamps, so what is appended is finite. A write is whole or leaves nothing.
  abbrev pub IsOrderly : Operation → Type 0
  IsOrderly (appends es now written) = All (IsFinite f) es × (is_clean f written ≡ true)
  IsOrderly (sweeps max_age now folds) = Unit {0}
  IsOrderly relaunches = Unit {0}
  IsOrderly (crashes es now written) = All (IsFinite f) es × (is_clean f written ≡ true)

  abbrev IsSound : EventStore Num → Type 0
  IsSound store = IsIndexed f store × (are_ended f store.disk ≡ true)

  ended-snoc :
      (s : Segment Num) (disk : List (Segment Num))
      → are_ended f disk ≡ true
      → s.unended ≡ false
      → are_ended f (disk ++ s ∷ []) ≡ true
  ended-snoc s [] h one = ground (arith, one)
  ended-snoc s (t ∷ disk) h one = ground (arith, h, ended-snoc s disk)

  sweep_segments-ended :
      (folds : ℕ → Bool) (max_age now : ℕ) (disk : List (Segment Num)) (w : Sweep f (Unit {0}))
      → are_ended f w.kept ≡ true
      → are_ended f disk ≡ true
      → are_ended f (sweep_segments f (fold_by folds) max_age now disk w).kept ≡ true
  unfolding sweep_segments sweep_segment
  sweep_segments-ended folds max_age now [] w kept h = kept
  sweep_segments-ended folds max_age now (s ∷ disk) w kept h =
      sweep_segments-ended folds max_age now disk (sweep_segment f (fold_by folds) max_age now s w)
        (ground (arith, kept, h, ended-snoc s w.kept)) (ground (arith, h))

  launch-ended :
      (store : EventStore Num)
      → are_ended f store.disk ≡ true
      → are_ended f (launch f store.disk).disk ≡ true
  unfolding launch open_store
  launch-ended store ended = ended

  operate-IsSound :
      (store : EventStore Num) (o : Operation)
      → IsOrderly o
      → IsSound store
      → IsSound (operate store o)
  unfolding operate sweep
  operate-IsSound store (appends es now written) (finite, clean) (ok, ended) = (
    append-IsIndexed f store es now written finite clean ended ok,
    append-ended f store es now written clean ended,
  )
  operate-IsSound store (sweeps max_age now folds) h (ok, ended) = (
    sweep-IsIndexed f (fold_by folds) max_age now tt store ok,
    sweep_segments-ended folds max_age now store.disk (start_sweep f tt store) refl ended,
  )
  operate-IsSound store relaunches h (ok, ended) =
      (launch-IsIndexed f store ok, launch-ended store ended)
  operate-IsSound store (crashes es now written) (finite, clean) (ok, ended) =
      let left = (append store es now written).0 in
      (
        launch-IsIndexed f left (append-IsIndexed f store es now written finite clean ended ok),
        launch-ended left (append-ended f store es now written clean ended),
      )

  run-IsSound :
      (store : EventStore Num) (os : List Operation)
      → All IsOrderly os
      → IsSound store
      → IsSound (run store os)
  unfolding run
  run-IsSound store [] h ok = ok
  run-IsSound store (o ∷ os) h ok =
      run-IsSound (operate store o) os h.1 (operate-IsSound store o h.0 ok)

  -- From an indexed log whose files end in a newline, whatever is appended, swept and relaunched,
  -- with writes and folds that fail or not, every event key is on the disk once if the index has it
  -- and not at all otherwise. A write that fails, or that a crash stops, is one that left nothing or
  -- all of its batch.
  pub run-IsIndexed :
      (store : EventStore Num) (os : List Operation)
      → All IsOrderly os
      → are_ended f store.disk ≡ true
      → IsIndexed f store
      → IsIndexed f (run store os)
  run-IsIndexed store os h ended ok = (run-IsSound store os h (ok, ended)).0
