-- ===== src/EventStore.antt =====
-- The host's log of playback events (apps/electron-client/src/eventStore.ts): one segment for each
-- UTC day, and the index of the events that it holds.
pub mod Once
pub mod Retry
pub mod Keys
pub mod History
pub mod Torn
pub mod AtMostOnce
pub mod Losses
use Prim.Native.Char.{Char}
use Prim.Native.String.{◌++◌ as ◌<>◌, ◌∷◌ as cons}
use tapes_monorepo.Base.{
  ℕ, zero, suc, ◌+◌, ◌*◌, ◌/◌, String, Bool, true, false, not, ◌&&◌, List, [], ◌∷◌, ◌++◌, map,
  Option, none, some, if◌then◌else◌, ltb, text_eq, nat_eq, ◌==◌, or_else, list_eq, length, all,
  includes, add, without, Float,
}

pub record PlaybackEvent (N : Type 0) : Type 0 where
  pub id : String
  pub recording_url : String
  pub completion : N
  pub occurred_at : String
  pub device_id : Option String

pub record StoredEvent (N : Type 0) : Type 0 where
  pub event : PlaybackEvent N
  pub open event use *
  pub received_at : ℕ

-- A line of a segment that parses to an event's shape, or one that does not.
pub data Line (N : Type 0) : Type 0 where
  line : StoredEvent N → Line N
  torn : Line N

-- A segment's name is its day, counted from the epoch. Its last line may lack the newline, where a
-- write was cut off.
pub record Segment (N : Type 0) : Type 0 where
  pub day : ℕ
  pub lines : List (Line N)
  pub unended : Bool

-- What follows the lines that are complete, where a write is cut off: nothing, a part of the next
-- line, or all of it but the newline.
pub data Ending : Type 0 where
  nothing_more a_fragment no_newline : Ending

-- How much of a payload `appendFile` wrote: all, or some lines of it and an ending.
pub data Written : Type 0 where
  whole : Written
  part : ℕ → Ending → Written

abbrev pub is_whole : Written → Bool
is_whole whole = true
is_whole (part n ending) = false

pub record EventStore (N : Type 0) : Type 0 where
  pub seen : List String
  pub opened : Bool
  pub disk : List (Segment N)

pub record AppendResult (N : Type 0) : Type 0 where
  pub accepted : List (StoredEvent N)
  pub duplicates : List String

abbrev pub day_ms : ℕ
day_ms = 24 * 60 * 60 * 1000

abbrev pub default_event_max_age_ms : ℕ
default_event_max_age_ms = 90 * 24 * 60 * 60 * 1000

unfoldable pub segment_day : ℕ → ℕ
segment_day now = now / day_ms

unfoldable pub segment_end_ms : ℕ → ℕ
segment_end_ms day = day * day_ms + day_ms

abbrev pub nul : Char
nul = "\0"

unfoldable pub dedupe_key : Option String → String → String
dedupe_key device_id id = or_else device_id "unknown" <> cons nul id

pub record Admitted (N : Type 0) : Type 0 where
  pub seen : List String
  pub accepted : List (StoredEvent N)
  pub duplicates : List String

module _ {N : Type 0} where
  abbrev pub key_of : PlaybackEvent N → String
  key_of e = dedupe_key e.device_id e.id

  abbrev pub stored_key : StoredEvent N → String
  stored_key e = key_of e.event

  -- the batch loop of `append`
  unfoldable pub admit : ℕ → List (PlaybackEvent N) → List String → Admitted N
  admit now [] seen = record { seen = seen; accepted = []; duplicates = [] }
  admit now (e ∷ es) seen =
      let skipped = admit now es seen in
      let admitted = admit now es (seen ++ key_of e ∷ []) in
      if e.id == ""
      then skipped
      else if includes seen (key_of e)
      then record skipped { duplicates = e.id ∷ skipped.duplicates }
      else record admitted {
        accepted = record { event = e; received_at = now } ∷ admitted.accepted;
      }

  -- the lines of a payload that is cut off, and whether the last of them lacks its newline
  unfoldable pub cut : ℕ → Ending → List (Line N) → List (Line N) × Bool
  cut n ending [] = ([], false)
  cut zero nothing_more (l ∷ lines) = ([], false)
  cut zero a_fragment (l ∷ lines) = (torn ∷ [], true)
  cut zero no_newline (l ∷ lines) = (l ∷ [], true)
  cut (suc n) ending (l ∷ lines) = let (rest, unended) = cut n ending lines in (l ∷ rest, unended)

  unfoldable pub spoil_last : List (Line N) → List (Line N)
  spoil_last [] = torn ∷ []
  spoil_last (l ∷ []) = torn ∷ []
  spoil_last (l ∷ m ∷ lines) = l ∷ spoil_last (m ∷ lines)

  -- Bytes go straight after the old ones, so that a first line joins a last one without a newline,
  -- and the two do not parse.
  unfoldable pub join_lines : Bool → List (Line N) → List (Line N) → List (Line N)
  unfolding spoil_last
  join_lines unended old [] = old
  join_lines unended old (l ∷ lines) = if unended then spoil_last old ++ lines else old ++ l ∷ lines

  -- `appendFile` on the day's segment, which it creates if there is none. Names sort by day.
  unfoldable pub append_file : ℕ → List (Line N) → Bool → List (Segment N) → List (Segment N)
  unfolding join_lines
  append_file day [] unended disk = disk
  append_file day (l ∷ lines) unended [] =
      record { day = day; lines = l ∷ lines; unended = unended } ∷ []
  append_file day (l ∷ lines) unended (s ∷ disk) =
      let rest = append_file day (l ∷ lines) unended disk in
      if s.day == day
      then record s { lines = join_lines s.unended s.lines (l ∷ lines); unended = unended } ∷ disk
      else if ltb day s.day
      then record { day = day; lines = l ∷ lines; unended = unended } ∷ s ∷ disk
      else s ∷ rest

  -- the disk after a write of a payload, or of a part of it
  unfoldable pub write_lines : Written → ℕ → List (Line N) → List (Segment N) → List (Segment N)
  unfolding append_file cut
  write_lines whole day lines disk = append_file day lines false disk
  write_lines (part n ending) day lines disk =
      let (written, unended) = cut n ending lines in append_file day written unended disk

  unfoldable pub forget : List (StoredEvent N) → List String → List String
  forget [] seen = seen
  forget (e ∷ es) seen = forget es (without (stored_key e) seen)

  -- `appendFile` throws unless it writes the whole payload, and can leave a part of it on the disk;
  -- the error is passed on, so there is no result.
  unfoldable pub append :
      EventStore N → List (PlaybackEvent N) → ℕ → Written → EventStore N × Option (AppendResult N)
  unfolding segment_day write_lines
  append store events now written =
      let batch = admit now events store.seen in
      let result : AppendResult N = record {
        accepted = batch.accepted;
        duplicates = batch.duplicates;
      } in
      let disk = write_lines written (segment_day now) (map line batch.accepted) store.disk in
      elim batch.accepted [
        | [] ↦ (record store { seen = batch.seen }, some result)
        | first ∷ rest ↦
            if is_whole written
            then (record store { seen = batch.seen; disk = disk }, some result)
            else (record store { seen = forget (first ∷ rest) batch.seen; disk = disk }, none)
      ]

  abbrev pub has : EventStore N → PlaybackEvent N → Bool
  has store e = includes store.seen (key_of e)

module _ (f : Float) where
  open f use {Num, is_finite}

  -- the checks of `isStoredEvent` that are not the checks of a type
  unfoldable pub is_stored_event : StoredEvent Num → Bool
  is_stored_event e = not (e.id == "") && is_finite e.completion

  unfoldable pub read_segment : List (Line Num) → List (StoredEvent Num)
  unfolding is_stored_event
  read_segment [] = []
  read_segment (torn ∷ lines) = read_segment lines
  read_segment (line e ∷ lines) =
      let rest = read_segment lines in if is_stored_event e then e ∷ rest else rest

  unfoldable pub replay : List (Segment Num) → List (StoredEvent Num)
  replay [] = []
  replay (s ∷ disk) = read_segment s.lines ++ replay disk

  unfoldable pub index_events : List (StoredEvent Num) → List String → List String
  index_events [] seen = seen
  index_events (e ∷ es) seen = index_events es (add seen (stored_key e))

  unfoldable pub open_store : EventStore Num → EventStore Num
  open_store store =
      if store.opened
      then store
      else record store { seen = index_events (replay store.disk) store.seen; opened = true }

  -- A launch of the process finds the disk and nothing else.
  unfoldable pub launch : List (Segment Num) → EventStore Num
  launch disk = open_store (record { seen = []; opened = false; disk = disk })

  pub record Sweep (H : Type 0) : Type 0 where
    pub hook : H
    pub seen : List String
    pub kept : List (Segment Num)
    pub removed : List ℕ
    pub retained : List ℕ
    pub events : ℕ

  abbrev pub start_sweep : {H : Type 0} → H → EventStore Num → Sweep H
  start_sweep hook store = record {
    hook = hook;
    seen = store.seen;
    kept = [];
    removed = [];
    retained = [];
    events = 0;
  }

  module _ {H : Type 0} (on_segment : H → ℕ → List (StoredEvent Num) → H × Bool) where
    -- One round of the loop of `sweep`. The hook answers false when it throws.
    unfoldable pub sweep_segment : ℕ → ℕ → Segment Num → Sweep H → Sweep H
    sweep_segment max_age now s w =
        let expiring = read_segment s.lines in
        let (hook, folded) = on_segment w.hook s.day expiring in
        if ltb now (segment_end_ms s.day + max_age)
        then record w { kept = w.kept ++ s ∷ [] }
        else if folded
        then record w {
          hook = hook;
          seen = forget expiring w.seen;
          removed = w.removed ++ s.day ∷ [];
          events = w.events + length expiring;
        }
        else record w { hook = hook; kept = w.kept ++ s ∷ []; retained = w.retained ++ s.day ∷ [] }

    unfoldable pub sweep_segments : ℕ → ℕ → List (Segment Num) → Sweep H → Sweep H
    sweep_segments max_age now [] w = w
    sweep_segments max_age now (s ∷ disk) w =
        sweep_segments max_age now disk (sweep_segment max_age now s w)

    unfoldable pub sweep : ℕ → ℕ → H → EventStore Num → Sweep H
    sweep max_age now hook store = sweep_segments max_age now store.disk (start_sweep hook store)

    abbrev pub after_sweep : EventStore Num → Sweep H → EventStore Num
    after_sweep store w = record store { seen = w.seen; disk = w.kept }
