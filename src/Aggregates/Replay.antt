-- ===== src/Aggregates/Replay.antt =====
-- aggregates.ts: the rollup that is kept up to date, and a replay of the log.
use tapes_monorepo.Base.{
  ℕ, ◌+◌, String, true, false, List, [], ◌∷◌, map, none, some, ◌≡◌, arith, nat_beq_iff, text_eq,
  nat_eq, list_eq, All, includes, Float,
}
use tapes_monorepo.EventStore.{
  PlaybackEvent, Line, Segment, Written, segment_day, admit, join_lines, append_file, append,
  read_segment, line,
}
use tapes_monorepo.EventStore.Once.{
  read_segment-append, are_ended, is_clean, write_lines-clean, IsFinite, read_segment-lines,
}
use tapes_monorepo.Aggregates.{plays, fold_events, record_events, Host, rebuild, read_baseline}
use tapes_monorepo.Aggregates.Counts.{
  counted, counted-append, plays-fold_events, live_plays, plays-derive,
}

module _ (f : Float) where
  open f use {Num}

  -- A flush as the ingest route makes it: what the log accepted is folded into the rollup.
  unfoldable pub take_in : Host f → List (PlaybackEvent Num) → ℕ → Written → Host f
  take_in h es now written =
      let (events, result) = append h.events es now written in
      record {
        events = events;
        aggregates = elim result [
          | none ↦ h.aggregates
          | some r ↦ record_events f h.aggregates r.accepted
        ];
      }

  -- The plays that `rebuild` reports, which reads the baseline file again and replays the log.
  abbrev pub rebuilt : String → Host f → ℕ
  rebuilt url h = plays f url (rebuild f h.aggregates h.events.disk).rollup

  -- Every recording has as many plays as `rebuild` would give it.
  abbrev pub IsInSync : Host f → Type 0
  IsInSync h = (url : String) → plays f url h.aggregates.rollup ≡ rebuilt url h

  live_plays-append_file :
      (url : String) (folded : List ℕ) (day : ℕ) (ls : List (Line Num)) (disk : List (Segment Num))
      → are_ended f disk ≡ true
      → includes folded day ≡ false
      → live_plays f url folded (append_file day ls false disk)
        ≡ counted url (read_segment f ls) + live_plays f url folded disk
  unfolding live_plays append_file join_lines counted read_segment
  live_plays-append_file url folded day [] disk ended h = omega arith
  live_plays-append_file url folded day (l ∷ ls) [] ended h = ground (arith, h)
  live_plays-append_file url folded day (l ∷ ls) (s ∷ disk) ended h = ground (
    arith,
    ended,
    h,
    live_plays-append_file url folded day (l ∷ ls) disk,
    read_segment-append f s.lines (l ∷ ls),
    counted-append url (read_segment f s.lines) (read_segment f (l ∷ ls)),
    nat_beq_iff s.day day,
  )

  -- A flush keeps each recording's count of plays at what `rebuild` would report, whether or not its
  -- write to the log succeeds, where a write that fails leaves nothing. The log's files end in a
  -- newline, the events are finite, and the baseline file has not taken in the day's segment.
  pub take_in-IsInSync :
      (h : Host f) (es : List (PlaybackEvent Num)) (now : ℕ) (written : Written)
      → All (IsFinite f) es
      → is_clean f written ≡ true
      → are_ended f h.events.disk ≡ true
      → includes (read_baseline f h.aggregates).folded_segments (segment_day now) ≡ false
      → IsInSync h
      → IsInSync (take_in h es now written)
  unfolding take_in append record_events rebuild read_baseline counted fold_events
  take_in-IsInSync h es now written finite clean ended fresh ok url =
      let batch = (admit now es h.events.seen).accepted in
      let loaded = read_baseline f h.aggregates in
      ground (
        arith,
        ok url,
        read_segment-lines f now es h.events.seen finite,
        plays-fold_events f url batch h.aggregates.rollup,
        plays-derive f url loaded h.events.disk,
        plays-derive f url loaded
            (append_file (segment_day now) (map line batch) false h.events.disk),
        plays-derive f url (read_baseline f (record_events f h.aggregates batch))
            (append_file (segment_day now) (map line batch) false h.events.disk),
        live_plays-append_file url loaded.folded_segments (segment_day now) (map line batch)
            h.events.disk ended fresh,
        write_lines-clean f written (segment_day now) (map line batch) h.events.disk clean,
      )
