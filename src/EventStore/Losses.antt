-- ===== src/EventStore/Losses.antt =====
-- eventStore.ts: what a write that is cut off costs later.
use tapes_monorepo.Base.{
  ℕ, ◌≤◌, String, Bool, true, false, not, ◌&&◌, List, [], ◌∷◌, ◌++◌, append-nil, none, some, ◌≡◌,
  refl, ◌∙◌, ap, arith, if◌then◌else◌, nat_beq_iff, text_eq, nat_eq, ◌==◌, ==_refl, list_eq,
  includes, includes-append, includes-without, Float,
}
use tapes_monorepo.EventStore.{
  PlaybackEvent, StoredEvent, Line, Segment, Written, is_whole, EventStore, segment_day, key_of,
  admit, cut, spoil_last, join_lines, append_file, write_lines, forget, append, has, read_segment,
  replay, open_store, launch, line, nothing_more, whole, part,
}
use tapes_monorepo.EventStore.Once.{
  count_key, count_key-append, held, are_ended, held-append_file, append_file-ended,
  includes-index_events,
}
use tapes_monorepo.EventStore.Torn.{count_key-spoil_last}

module _ (f : Float) where
  open f use {Num, is_finite}

  abbrev pub is_new : EventStore Num → PlaybackEvent Num → Bool
  is_new store e = not (e.id == "") && not (includes store.seen (key_of e))

  abbrev pub received : PlaybackEvent Num → ℕ → StoredEvent Num
  received e now = record { event = e; received_at = now }

  admit-new :
      (store : EventStore Num) (e : PlaybackEvent Num) (now : ℕ)
      → is_new store e ≡ true
      → admit now (e ∷ []) store.seen ≡ record {
        seen = store.seen ++ key_of e ∷ [];
        accepted = received e now ∷ [];
        duplicates = [];
      }
  unfolding admit
  admit-new store e now new = ground (arith, new)

  -- the log after an append of one event, whole, to a single file of the same day
  append_file-joins :
      (k : String) (s : Segment Num) (l : Line Num)
      → s.unended ≡ true
      → held f k (append_file s.day (l ∷ []) false (s ∷ [])) ≤ held f k (s ∷ [])
  unfolding append_file join_lines replay
  append_file-joins k s l torn_off = ground (
    arith,
    torn_off,
    nat_beq_iff s.day s.day,
    count_key-spoil_last f k s.lines,
    count_key-append k (read_segment f s.lines) [],
    count_key-append k (read_segment f (spoil_last s.lines)) [],
    count_key-append k (read_segment f (spoil_last s.lines ++ [])) [],
    append-nil (spoil_last s.lines),
  )

  abbrev pub log_of : Segment Num → List String → EventStore Num
  log_of s seen = record { seen = seen; opened = true; disk = s ∷ [] }

  append-new :
      (store : EventStore Num) (e : PlaybackEvent Num) (now : ℕ) (written : Written)
      → is_new store e ≡ true
      → let disk = write_lines written (segment_day now) (line (received e now) ∷ []) store.disk in
        append store (e ∷ []) now written ≡ (
          if is_whole written
          then (
            record store { seen = store.seen ++ key_of e ∷ []; disk = disk },
            some (record { accepted = received e now ∷ []; duplicates = [] }),
          )
          else (
            record store {
              seen = forget (received e now ∷ []) (store.seen ++ key_of e ∷ []);
              disk = disk;
            },
            none,
          ))
  unfolding append
  append-new store e now written new = ground (arith, admit-new store e now new)

  -- Where a crash has left the day's file without its last newline, an event that is appended next is
  -- accepted and indexed, and is not on the disk: it joins the cut line, and the next launch does
  -- not have it.
  pub torn_tail_loses :
      (s : Segment Num) (seen : List String) (e : PlaybackEvent Num) (now : ℕ)
      → s.unended ≡ true
      → segment_day now ≡ s.day
      → is_new (log_of s seen) e ≡ true
      → held f (key_of e) (s ∷ []) ≡ 0
      → let (after, result) = append (log_of s seen) (e ∷ []) now whole in
        (result ≡ some (record { accepted = received e now ∷ []; duplicates = [] }))
        × (has after e ≡ true)
        × (has (launch f after.disk) e ≡ false)
  unfolding launch open_store write_lines
  torn_tail_loses s seen e now torn_off today new absent =
      let same = append-new (log_of s seen) e now whole new in
      let key = key_of e in
      let lines = line (received e now) ∷ [] in
      let disk = append_file (segment_day now) lines false (s ∷ []) in
      let joined : disk ≡ append_file s.day lines false (s ∷ []) =
        ap (λ day. append_file day lines false (s ∷ [])) today in
      let gone : held f key disk ≡ 0 =
        ap (held f key) joined
        ∙ omega (arith, append_file-joins key s (line (received e now)) torn_off, absent) in
      (
        ap (λ r. r.1) same,
        ap (λ r. has r.0 e) same ∙ ground (arith, includes-append seen (key ∷ []) key, ==_refl key),
        ap (λ r. has (launch f r.0.disk) e) same
            ∙ ground (arith, gone, includes-index_events f key (replay f disk) []),
      )

  is_new-failed :
      (store : EventStore Num) (e : PlaybackEvent Num) (now : ℕ)
      → is_new store e ≡ true
      → is_new (append store (e ∷ []) now (part 1 nothing_more)).0 e ≡ true
  unfolding forget
  is_new-failed store e now new =
      ap (λ r. is_new r.0 e) (append-new store e now (part 1 nothing_more) new)
      ∙ ground (
        arith,
        new,
        includes-without (key_of e) (key_of e) (store.seen ++ key_of e ∷ []),
        ==_refl (key_of e),
      )

  written_one :
      (day : ℕ) (l : Line Num) (disk : List (Segment Num))
      → write_lines (part 1 nothing_more) day (l ∷ []) disk ≡ append_file day (l ∷ []) false disk
  unfolding write_lines cut
  written_one day l disk = refl

  counted_once :
      (e : PlaybackEvent Num) (now : ℕ)
      → (e.id == "") ≡ false
      → is_finite e.completion ≡ true
      → count_key (key_of e) (read_segment f (line (received e now) ∷ [])) ≡ 1
  unfolding read_segment count_key
  counted_once e now named finite = ground (arith, named, finite, ==_refl (key_of e))

  -- Where the write of an event reaches the disk and yet is reported to have failed, its key leaves
  -- the index, so that the guest's retry is accepted and the log has the event twice.
  pub failed_write_doubles :
      (store : EventStore Num) (e : PlaybackEvent Num) (now later : ℕ)
      → is_new store e ≡ true
      → are_ended f store.disk ≡ true
      → is_finite e.completion ≡ true
      → held f (key_of e) store.disk ≡ 0
      → let (failed, answer) = append store (e ∷ []) now (part 1 nothing_more) in
        let (retried, result) = append failed (e ∷ []) later whole in
        (answer ≡ none)
        × (result ≡ some (record { accepted = received e later ∷ []; duplicates = [] }))
        × (held f (key_of e) retried.disk ≡ 2)
  unfolding write_lines
  failed_write_doubles store e now later new ended finite absent =
      let failed = (append store (e ∷ []) now (part 1 nothing_more)).0 in
      let first = append-new store e now (part 1 nothing_more) new in
      let again = append-new failed e later whole (is_new-failed store e now new) in
      let one = append_file (segment_day now) (line (received e now) ∷ []) false store.disk in
      let left : failed.disk ≡ one =
        ap (λ r. r.0.disk) first
        ∙ written_one (segment_day now) (line (received e now)) store.disk in
      let two =
        held-append_file f (key_of e) (segment_day later) (line (received e later) ∷ []) one
          (append_file-ended f (segment_day now) (line (received e now) ∷ []) store.disk ended) in
      let before =
        held-append_file f (key_of e) (segment_day now) (line (received e now) ∷ []) store.disk
          ended in
      (
        ap (λ r. r.1) first,
        ap (λ r. r.1) again,
        ap (λ r. held f (key_of e) r.0.disk) again
            ∙ ap
                (λ disk.
                  held f (key_of e)
                    (append_file (segment_day later) (line (received e later) ∷ []) false disk))
                left
            ∙ omega (
              arith,
              two,
              before,
              absent,
              counted_once e now (ground (arith, new)) finite,
              counted_once e later (ground (arith, new)) finite,
            ),
      )
