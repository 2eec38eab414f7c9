-- ===== src/Aggregates/Lifetime.antt =====
-- aggregates.ts: a sweep moves plays from the log to the baseline, as memory has it.
use tapes_monorepo.Base.{
  ℕ, ◌+◌, String, Bool, List, [], ◌∷◌, ◌≡◌, arith, nat_beq_iff, nat_eq, text_eq, add, includes-add,
  Float, All-append, false, ◌++◌, ◌⊎◌, inr, inl, subst₂, subst, sym, ap, ◌∙◌,
}
use tapes_monorepo.EventStore.{
  Segment, read_segment, Sweep, sweep_segment, sweep_segments, start_sweep,
}
use tapes_monorepo.Aggregates.{AggregateStore, write_baseline, fold_segment, settle, EventStore}
use tapes_monorepo.Aggregates.Counts.{weight, weight-fold_events, live_plays}
use tapes_monorepo.Aggregates.Days.{
  DistinctDays, ApartFrom, days, has_day-ApartFrom, live_plays-append, live_plays-add,
  ApartFrom-snoc, ApartFrom-tail, live_plays-drop_names, days-append, has_day,
}

module _ (f : Float) where
  open f use {Num}

  abbrev pub in_baseline_or_log : String → AggregateStore f → List (Segment Num) → ℕ
  in_baseline_or_log url a disk = weight f url a.baseline + live_plays f url a.folded_segments disk

  -- In the middle of a sweep that began with the plays `total`.
  pub record Midway (url : String) (total : ℕ) (w : Sweep f (AggregateStore f))
      (rest : List (Segment Num)) : Type 0 where
    pub plays :
        weight f url w.hook.baseline
          + live_plays f url w.hook.folded_segments w.kept
          + live_plays f url w.hook.folded_segments rest
        ≡ total
    pub distinct : DistinctDays rest
    pub kept_apart : ApartFrom rest (days w.kept)
    pub removed_kept : ApartFrom w.kept w.removed
    pub removed_rest : ApartFrom rest w.removed

  module _ (writes : ℕ → Bool) (max_age now : ℕ) (url : String) (total : ℕ) (s : Segment Num)
      (rest : List (Segment Num)) (w : Sweep f (AggregateStore f))
      (m : Midway url total w (s ∷ rest)) where
    abbrev next : Sweep f (AggregateStore f)
    next = sweep_segment f (fold_segment f writes) max_age now s w

    plays-next :
        weight f url next.hook.baseline
          + live_plays f url next.hook.folded_segments next.kept
          + live_plays f url next.hook.folded_segments rest
        ≡ total
    unfolding sweep_segment fold_segment write_baseline live_plays
    plays-next = ground (
      arith,
      m.plays,
      m.distinct.0,
      has_day-ApartFrom s rest w.kept m.kept_apart,
      weight-fold_events f url (read_segment f s.lines) w.hook.baseline,
      live_plays-add f url w.hook.folded_segments s.day w.kept,
      live_plays-add f url w.hook.folded_segments s.day rest,
      live_plays-append f url w.hook.folded_segments w.kept (s ∷ []),
      live_plays-append f url (add w.hook.folded_segments s.day) w.kept (s ∷ []),
      includes-add w.hook.folded_segments s.day s.day,
      nat_beq_iff s.day s.day,
    )

    -- The segment is kept, or it is removed.
    next_cases :
        ((next.kept ≡ w.kept ++ s ∷ []) × (next.removed ≡ w.removed))
        ⊎ ((next.kept ≡ w.kept) × (next.removed ≡ w.removed ++ s.day ∷ []))
    unfolding sweep_segment
    next_cases = ground arith

    kept_apart-next : ApartFrom rest (days next.kept)
    kept_apart-next =
        let tail = ApartFrom-tail s rest (days w.kept) m.kept_apart in
        elim next_cases [
          | inl p ↦
              subst (λ ds. ApartFrom rest ds) (sym (ap days p.0 ∙ days-append w.kept (s ∷ [])))
                (All-append (λ day. has_day day rest ≡ false) (days w.kept) (s.day ∷ []) tail
                  (m.distinct.0, tt))
          | inr p ↦ subst (λ ss. ApartFrom rest (days ss)) (sym p.0) tail
        ]

    removed_kept-next : ApartFrom next.kept next.removed
    removed_kept-next = elim next_cases [
      | inl p ↦
          subst₂ ApartFrom (sym p.0) (sym p.1)
            (ApartFrom-snoc s rest w.kept w.removed m.removed_rest m.removed_kept)
      | inr p ↦ subst₂ ApartFrom (sym p.0) (sym p.1) (
          All-append (λ day. has_day day w.kept ≡ false) w.removed (s.day ∷ []) m.removed_kept
            (has_day-ApartFrom s rest w.kept m.kept_apart, tt))
    ]

    removed_rest-next : ApartFrom rest next.removed
    removed_rest-next =
        let tail = ApartFrom-tail s rest w.removed m.removed_rest in
        elim next_cases [
          | inl p ↦ subst (ApartFrom rest) (sym p.1) tail
          | inr p ↦ subst (ApartFrom rest) (sym p.1) (
              All-append (λ day. has_day day rest ≡ false) w.removed (s.day ∷ []) tail
                (m.distinct.0, tt))
        ]

    pub sweep_segment-Midway : Midway url total next rest
    sweep_segment-Midway = record {
      plays = plays-next;
      distinct = m.distinct.1;
      kept_apart = kept_apart-next;
      removed_kept = removed_kept-next;
      removed_rest = removed_rest-next;
    }

  pub sweep_segments-Midway :
      (writes : ℕ → Bool) (max_age now : ℕ) (url : String) (total : ℕ) (disk : List (Segment Num))
      (w : Sweep f (AggregateStore f))
      → Midway url total w disk
      → Midway url total (sweep_segments f (fold_segment f writes) max_age now disk w) []
  unfolding sweep_segments
  sweep_segments-Midway writes max_age now url total [] w m = m
  sweep_segments-Midway writes max_age now url total (s ∷ disk) w m =
      sweep_segments-Midway writes max_age now url total disk
        (sweep_segment f (fold_segment f writes) max_age now s w)
        (sweep_segment-Midway writes max_age now url total s disk w m)

  pub start-Midway :
      (url : String) (a : AggregateStore f) (store : EventStore Num)
      → DistinctDays store.disk
      → Midway url (in_baseline_or_log url a store.disk) (start_sweep f a store) store.disk
  unfolding live_plays
  start-Midway url a store h = record {
    plays = omega arith;
    distinct = h;
    kept_apart = tt;
    removed_kept = tt;
    removed_rest = tt;
  }

  pub settle-plays :
      (url : String) (a : AggregateStore f) (disk : List (Segment Num)) (removed : List ℕ)
      (written : Bool)
      → ApartFrom disk removed
      → in_baseline_or_log url (settle f removed a written) disk ≡ in_baseline_or_log url a disk
  unfolding settle write_baseline
  settle-plays url a disk removed written h =
      ground (arith, live_plays-drop_names f url removed a.folded_segments disk h)
