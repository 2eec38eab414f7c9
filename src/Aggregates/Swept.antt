-- ===== src/Aggregates/Swept.antt =====
-- aggregates.ts: what a launch finds after a sweep, whichever writes of the baseline failed.
use tapes_monorepo.Base.{
  ℕ, ◌+◌, String, Bool, true, false, List, [], ◌∷◌, ◌++◌, append-nil, ◌⊎◌, inl, inr, ◌≡◌, refl, sym,
  ◌∙◌, ap, subst, arith, ltb, nat_beq_iff, text_eq, nat_eq, ◌==◌, Bool-cases, Option-cases, list_eq,
  includes, add, includes-add, Float, clamp_finite,
}
use tapes_monorepo.EventStore.{
  StoredEvent, Segment, EventStore, segment_end_ms, read_segment, Sweep, start_sweep, sweep_segment,
  sweep_segments, sweep,
}
use tapes_monorepo.Aggregates.{
  fold_events, AggregateStore, read_entries, read_baseline, write_baseline, rebuild, fold_segment,
  drop_names, settle, Host, sweep_aggregates, plays,
}
use tapes_monorepo.Aggregates.Counts.{live_plays, plays-derive}
use tapes_monorepo.Aggregates.Days.{has_day, DistinctDays, ApartFrom, live_plays-append}
use tapes_monorepo.Aggregates.Lifetime.{
  Midway, sweep_segment-Midway, start-Midway, in_baseline_or_log, settle-plays,
}
use tapes_monorepo.Aggregates.Replay.{rebuilt}
use tapes_monorepo.Aggregates.Filed.{
  IsSound, read_entries-IsSound, includes-add_names, filed_plays, filed_plays-write,
  fold_events-IsSound,
}

module _ (f : Float) (zero_is_finite : f.is_finite f.zero_num ≡ true)
    (plus_is_finite : (x y : f.Num)
      → f.is_finite x ≡ true
      → f.is_finite (f.plus x (clamp_finite f y)) ≡ true) where
  open f use {Num}

  -- The file has the names that memory has, of the segments that are yet to come.
  abbrev pub FileKnows : AggregateStore f → List (Segment Num) → Type 0
  FileKnows a [] = Unit {0}
  FileKnows a (s ∷ rest) =
      (includes a.folded_segments s.day ≡ includes (read_baseline f a).folded_segments s.day)
      × FileKnows a rest

  -- In the middle of a sweep that began with the plays `total` in the file and the log.
  record Filed (url : String) (total : ℕ) (w : Sweep f (AggregateStore f))
      (rest : List (Segment Num)) : Type 0 where
    memory : Midway f url total w rest
    filed : filed_plays f url w.hook (w.kept ++ rest) ≡ total
    knows : FileKnows w.hook rest
    sound : IsSound f w.hook.baseline
    shown : plays f url w.hook.rollup ≡ total

  FileKnows-fold_segment :
      (a : AggregateStore f) (writes : ℕ → Bool) (day : ℕ) (es : List (StoredEvent Num))
      (rest : List (Segment Num))
      → has_day day rest ≡ false
      → FileKnows a rest
      → FileKnows (fold_segment f writes a day es).0 rest
  unfolding fold_segment write_baseline read_baseline has_day
  FileKnows-fold_segment a writes day es [] apart h = tt
  FileKnows-fold_segment a writes day es (s ∷ rest) apart h = (
    ground (
      arith,
      h.0,
      apart,
      includes-add a.folded_segments day s.day,
      includes-add_names f s.day (add a.folded_segments day) [],
      nat_beq_iff day s.day,
      nat_beq_iff s.day day,
    ),
    FileKnows-fold_segment a writes day es rest (ground (arith, apart)) h.1,
  )

  module _ (writes : ℕ → Bool) (max_age now : ℕ) (url : String) (total : ℕ)
      (named : (url == "") ≡ false) (s : Segment Num) (rest : List (Segment Num))
      (w : Sweep f (AggregateStore f)) (m : Filed url total w (s ∷ rest)) where
    abbrev next : Sweep f (AggregateStore f)
    next = sweep_segment f (fold_segment f writes) max_age now s w

    memory-next : Midway f url total next rest
    memory-next = sweep_segment-Midway f writes max_age now url total s rest w m.memory

    hook_cases :
        (next.hook ≡ w.hook)
        ⊎ (next.hook ≡ (fold_segment f writes w.hook s.day (read_segment f s.lines)).0)
    unfolding sweep_segment
    hook_cases = ground arith

    knows-next : FileKnows next.hook rest
    knows-next = elim hook_cases [
      | inl same ↦ subst (λ a. FileKnows a rest) (sym same) m.knows.1
      | inr folded ↦
          subst (λ a. FileKnows a rest) (sym folded)
            (FileKnows-fold_segment w.hook writes s.day (read_segment f s.lines) rest
              m.memory.distinct.0 m.knows.1)
    ]

    abbrev folded_hook : AggregateStore f
    folded_hook = record w.hook {
      baseline = fold_events f (read_segment f s.lines) w.hook.baseline;
      folded_segments = add w.hook.folded_segments s.day;
    }

    folded-IsSound : IsSound f folded_hook.baseline
    folded-IsSound =
        fold_events-IsSound f zero_is_finite plus_is_finite (read_segment f s.lines) w.hook.baseline
          m.sound

    baseline_cases :
        (next.hook.baseline ≡ w.hook.baseline) ⊎ (next.hook.baseline ≡ folded_hook.baseline)
    unfolding sweep_segment fold_segment write_baseline
    baseline_cases = ground arith

    hook-IsSound : IsSound f next.hook.baseline
    hook-IsSound = elim baseline_cases [
      | inl same ↦ subst (IsSound f) (sym same) m.sound
      | inr folded ↦ subst (IsSound f) (sym folded) folded-IsSound
    ]

    filed-next : filed_plays f url next.hook (next.kept ++ rest) ≡ total
    unfolding sweep_segment fold_segment live_plays write_baseline read_baseline
    filed-next =
        let read = read_baseline f w.hook in
        let whole = live_plays-append f url read.folded_segments w.kept (s ∷ rest) in
        let less = live_plays-append f url read.folded_segments w.kept rest in
        let more = live_plays-append f url read.folded_segments (w.kept ++ s ∷ []) rest in
        let kept = live_plays-append f url read.folded_segments w.kept (s ∷ []) in
        elim (Bool-cases (ltb now (segment_end_ms s.day + max_age))) [
          | inl young ↦ ground (arith, young, m.filed, whole, more, kept)
          | inr old ↦ elim (Bool-cases (includes w.hook.folded_segments s.day)) [
            | inl known ↦ ground (arith, old, known, m.filed, m.knows.0, whole, less)
            | inr unknown ↦ elim (Bool-cases (writes s.day)) [
              | inr failed ↦ ground (arith, old, unknown, failed, m.filed, whole, more, kept)
              | inl wrote ↦ ground (
                arith,
                old,
                unknown,
                wrote,
                memory-next.plays,
                filed_plays-write f url folded_hook (w.kept ++ rest) named folded-IsSound,
                live_plays-append f url (add w.hook.folded_segments s.day) w.kept rest,
              )
            ]
          ]
        ]

    shown-next : plays f url next.hook.rollup ≡ total
    unfolding sweep_segment fold_segment write_baseline
    shown-next = ground (arith, m.shown)

    sweep_segment-Filed : Filed url total next rest
    sweep_segment-Filed = record {
      memory = memory-next;
      filed = filed-next;
      knows = knows-next;
      sound = hook-IsSound;
      shown = shown-next;
    }

  sweep_segments-Filed :
      (writes : ℕ → Bool) (max_age now : ℕ) (url : String) (total : ℕ) (named : (url == "") ≡ false)
      (disk : List (Segment Num)) (w : Sweep f (AggregateStore f))
      → Filed url total w disk
      → Filed url total (sweep_segments f (fold_segment f writes) max_age now disk w) []
  unfolding sweep_segments
  sweep_segments-Filed writes max_age now url total named [] w m = m
  sweep_segments-Filed writes max_age now url total named (s ∷ disk) w m =
      sweep_segments-Filed writes max_age now url total named disk
        (sweep_segment f (fold_segment f writes) max_age now s w)
        (sweep_segment-Filed writes max_age now url total named s disk w m)

  -- What the file gives is there again when the file is read again.
  read_again :
      (a : AggregateStore f) (disk : List (Segment Num))
      → let launched = rebuild f a disk in
        ((read_baseline f launched).baseline ≡ launched.baseline)
        × ((read_baseline f launched).folded_segments ≡ launched.folded_segments)
  unfolding rebuild read_baseline
  read_again a disk = elim (Option-cases a.file) [
    | inl none_yet ↦ (ground (arith, none_yet), ground (arith, none_yet))
    | inr (file, there) ↦ (ground (arith, there), ground (arith, there))
  ]

  rebuild-IsSound :
      (a : AggregateStore f) (disk : List (Segment Num)) → IsSound f (rebuild f a disk).baseline
  unfolding rebuild read_baseline
  rebuild-IsSound a disk = elim (Option-cases a.file) [
    | inl none_yet ↦
        let empty : (rebuild f a disk).baseline ≡ [] = ground (arith, none_yet) in
        subst (IsSound f) (sym empty) tt
    | inr (file, there) ↦
        let entries : (rebuild f a disk).baseline ≡ read_entries f file.recordings [] =
          ground (arith, there) in
        subst (IsSound f) (sym entries) (read_entries-IsSound f file.recordings [] tt)
  ]

  rebuild-knows :
      (a : AggregateStore f) (disk segments : List (Segment Num))
      → FileKnows (rebuild f a disk) segments
  rebuild-knows a disk [] = tt
  rebuild-knows a disk (s ∷ segments) = (
    ap (λ names. includes names s.day) (sym (read_again a disk).1),
    rebuild-knows a disk segments,
  )

  start-Filed :
      (url : String) (a : AggregateStore f) (events : EventStore Num)
      → DistinctDays events.disk
      → let launched = rebuild f a events.disk in
        Filed url
          (in_baseline_or_log f url launched events.disk)
          (start_sweep f launched events)
          events.disk
  unfolding rebuild
  start-Filed url a events distinct =
      let launched = rebuild f a events.disk in
      record {
        memory = start-Midway f url launched events distinct;
        filed = rw ((read_again a events.disk).0, (read_again a events.disk).1) refl;
        knows = rebuild-knows a events.disk events.disk;
        sound = rebuild-IsSound a events.disk;
        shown = plays-derive f url (read_baseline f a) events.disk;
      }

  settle-filed :
      (url : String) (total : ℕ) (a : AggregateStore f) (disk : List (Segment Num))
      (removed : List ℕ) (written : Bool)
      → (url == "") ≡ false
      → ApartFrom disk removed
      → IsSound f a.baseline
      → in_baseline_or_log f url a disk ≡ total
      → filed_plays f url a disk ≡ total
      → filed_plays f url (settle f removed a written) disk ≡ total
  unfolding settle write_baseline read_baseline
  settle-filed url total a disk removed written named apart sound memory filed = ground (
    arith,
    memory,
    filed,
    settle-plays f url a disk removed true apart,
    filed_plays-write f url (record a { folded_segments = drop_names f removed a.folded_segments })
        disk named sound,
  )

  rebuild-plays :
      (url : String) (a : AggregateStore f) (disk : List (Segment Num))
      → plays f url (rebuild f a disk).rollup ≡ filed_plays f url a disk
  unfolding rebuild
  rebuild-plays url a disk = plays-derive f url (read_baseline f a) disk

  settle-rollup :
      (a : AggregateStore f) (removed : List ℕ) (written : Bool)
      → (settle f removed a written).rollup ≡ a.rollup
  unfolding settle write_baseline
  settle-rollup a removed written = ground arith

  -- After a launch, a sweep leaves every recording with a url the plays that it had, whichever
  -- segments have expired and whichever writes of the baseline fail, provided that no two segments of
  -- the log have the same day: readers still get them, and so does a `rebuild` that reads the file
  -- and the log that the sweep leaves. A sum of finite numbers and numbers from 0 to 1 is finite.
  pub sweep_aggregates-rebuilt :
      (a : AggregateStore f) (events : EventStore Num) (max_age now : ℕ) (writes : ℕ → Bool)
      (settles : Bool) (url : String)
      → (url == "") ≡ false
      → DistinctDays events.disk
      → let h : Host f = record { aggregates = rebuild f a events.disk; events = events } in
        let after = sweep_aggregates f max_age now writes settles h in
        (rebuilt f url after ≡ rebuilt f url h)
        × (plays f url after.aggregates.rollup ≡ rebuilt f url h)
  unfolding sweep_aggregates sweep live_plays
  sweep_aggregates-rebuilt a events max_age now writes settles url named distinct =
      let launched = rebuild f a events.disk in
      let w =
        sweep_segments f (fold_segment f writes) max_age now events.disk
          (start_sweep f launched events) in
      let total = in_baseline_or_log f url launched events.disk in
      let m =
        sweep_segments-Filed writes max_age now url total named events.disk
          (start_sweep f launched events) (start-Filed url a events distinct) in
      let filed : filed_plays f url w.hook w.kept ≡ total =
        ap (filed_plays f url w.hook) (sym (append-nil w.kept)) ∙ m.filed in
      let ends =
        settle-filed url total w.hook w.kept w.removed settles named m.memory.removed_kept m.sound
          (omega (arith, m.memory.plays)) filed in
      let before =
        rebuild-plays url launched events.disk ∙ (start-Filed url a events distinct).filed in
      (
        (rebuild-plays url (settle f w.removed w.hook settles) w.kept ∙ ends) ∙ sym before,
        (ap (plays f url) (settle-rollup w.hook w.removed settles) ∙ m.shown) ∙ sym before,
      )
