-- ===== src/EventStore/Once.antt =====
-- eventStore.ts: the index and the log agree, and the log holds each event once.
use tapes_monorepo.Base.{
  ℕ, zero, suc, ◌+◌, String, Bool, true, false, not, ◌||◌, List, [], ◌∷◌, ◌++◌, map, ◌≡◌, refl,
  arith, eq_iff, if◌then◌else◌, ltb, text_eq, nat_eq, ◌==◌, indicator, list_eq, all, All, includes,
  add, without, includes-append, includes-add, includes-without, Float,
}
use tapes_monorepo.EventStore.{
  PlaybackEvent, StoredEvent, Line, Segment, Written, is_whole, EventStore, segment_day, key_of,
  stored_key, admit, cut, join_lines, append_file, write_lines, forget, append, read_segment,
  replay, index_events, open_store, launch, Sweep, start_sweep, sweep_segment, sweep_segments,
  sweep, after_sweep, line, torn, nothing_more, a_fragment, no_newline, whole, part,
}

module _ {N : Type 0} where
  -- How often the events of a list have the key.
  unfoldable pub count_key : String → List (StoredEvent N) → ℕ
  count_key k [] = 0
  count_key k (e ∷ es) = (if stored_key e == k then 1 else 0) + count_key k es

  pub count_key-append :
      (k : String) (es fs : List (StoredEvent N))
      → count_key k (es ++ fs) ≡ count_key k es + count_key k fs
  unfolding count_key
  count_key-append k [] fs = omega arith
  count_key-append k (e ∷ es) fs = omega (arith, count_key-append k es fs)

  pub count_key-admit :
      (k : String) (now : ℕ) (es : List (PlaybackEvent N)) (seen : List String)
      → count_key k (admit now es seen).accepted + indicator (includes seen k)
        ≡ indicator (includes (admit now es seen).seen k)
  unfolding count_key admit
  count_key-admit k now [] seen = omega arith
  count_key-admit k now (e ∷ es) seen = ground (
    arith,
    count_key-admit k now es seen,
    count_key-admit k now es (seen ++ key_of e ∷ []),
    includes-append seen (key_of e ∷ []) k,
    eq_iff (key_of e) k,
  )

  pub includes-forget :
      (k : String) (es : List (StoredEvent N)) (seen : List String)
      → includes (forget es seen) k ≡ (if ltb 0 (count_key k es) then false else includes seen k)
  unfolding count_key forget
  includes-forget k [] seen = refl
  includes-forget k (e ∷ es) seen = ground (
    arith,
    includes-forget k es (without (stored_key e) seen),
    includes-without (stored_key e) k seen,
  )

  -- A batch that did not reach the disk leaves the index as it was.
  pub forget-admit :
      (k : String) (now : ℕ) (es : List (PlaybackEvent N)) (seen : List String)
      → includes (forget (admit now es seen).accepted (admit now es seen).seen) k ≡ includes seen k
  forget-admit k now es seen = ground (
    arith,
    includes-forget k (admit now es seen).accepted (admit now es seen).seen,
    count_key-admit k now es seen,
  )

module _ (f : Float) where
  open f use {Num, is_finite}

  abbrev pub held : String → List (Segment Num) → ℕ
  held k disk = count_key k (replay f disk)

  -- Each key in the index is on the disk once, and no other key is.
  abbrev pub IsIndexed : EventStore Num → Type 0
  IsIndexed store = (k : String) → held k store.disk ≡ indicator (includes store.seen k)

  pub read_segment-append :
      (xs ys : List (Line Num)) → read_segment f (xs ++ ys) ≡ read_segment f xs ++ read_segment f ys
  unfolding read_segment
  read_segment-append [] ys = refl
  read_segment-append (torn ∷ xs) ys = read_segment-append xs ys
  read_segment-append (line e ∷ xs) ys = ground (arith, read_segment-append xs ys)

  -- whether every segment ends in a newline
  abbrev pub are_ended : List (Segment Num) → Bool
  are_ended = all (λ s. not s.unended)

  pub held-append_file :
      (k : String) (day : ℕ) (ls : List (Line Num)) (disk : List (Segment Num))
      → are_ended disk ≡ true
      → held k (append_file day ls false disk) ≡ count_key k (read_segment f ls) + held k disk
  unfolding append_file join_lines replay read_segment count_key
  held-append_file k day [] disk ended = omega arith
  held-append_file k day (l ∷ ls) [] ended =
      omega (arith, count_key-append k (read_segment f (l ∷ ls)) [])
  held-append_file k day (l ∷ ls) (s ∷ disk) ended = ground (
    arith,
    ended,
    held-append_file k day (l ∷ ls) disk,
    read_segment-append s.lines (l ∷ ls),
    count_key-append k (read_segment f s.lines) (read_segment f (l ∷ ls)),
    count_key-append k (read_segment f (s.lines ++ l ∷ ls)) (replay f disk),
    count_key-append k (read_segment f s.lines) (replay f disk),
    count_key-append k (read_segment f s.lines) (replay f (append_file day (l ∷ ls) false disk)),
    count_key-append k (read_segment f (l ∷ ls)) (read_segment f s.lines ++ replay f disk),
  )

  pub append_file-ended :
      (day : ℕ) (ls : List (Line Num)) (disk : List (Segment Num))
      → are_ended disk ≡ true
      → are_ended (append_file day ls false disk) ≡ true
  unfolding append_file
  append_file-ended day [] disk ended = ended
  append_file-ended day (l ∷ ls) [] ended = refl
  append_file-ended day (l ∷ ls) (s ∷ disk) ended =
      ground (arith, ended, append_file-ended day (l ∷ ls) disk)

  -- The write is whole, or leaves nothing.
  abbrev pub is_clean : Written → Bool
  is_clean whole = true
  is_clean (part zero nothing_more) = true
  is_clean (part n ending) = false

  pub write_lines-clean :
      (written : Written) (day : ℕ) (ls : List (Line Num)) (disk : List (Segment Num))
      → is_clean written ≡ true
      → write_lines written day ls disk
        ≡ (if is_whole written then append_file day ls false disk else disk)
  unfolding write_lines cut append_file
  write_lines-clean whole day ls disk clean = refl
  write_lines-clean (part zero nothing_more) day [] disk clean = refl
  write_lines-clean (part zero nothing_more) day (l ∷ ls) disk clean = refl
  write_lines-clean (part zero a_fragment) day ls disk clean = absurd (ground (arith, clean))
  write_lines-clean (part zero no_newline) day ls disk clean = absurd (ground (arith, clean))
  write_lines-clean (part (suc n) ending) day ls disk clean = absurd (ground (arith, clean))

  abbrev pub IsFinite : PlaybackEvent Num → Type 0
  IsFinite e = is_finite e.completion ≡ true

  pub read_segment-lines :
      (now : ℕ) (es : List (PlaybackEvent Num)) (seen : List String)
      → All IsFinite es
      → read_segment f (map line (admit now es seen).accepted) ≡ (admit now es seen).accepted
  unfolding admit read_segment
  read_segment-lines now [] seen h = refl
  read_segment-lines now (e ∷ es) seen h = ground (
    arith,
    h.0,
    read_segment-lines now es seen h.1,
    read_segment-lines now es (seen ++ key_of e ∷ []) h.1,
  )

  pub append-IsIndexed :
      (store : EventStore Num) (es : List (PlaybackEvent Num)) (now : ℕ) (written : Written)
      → All IsFinite es
      → is_clean written ≡ true
      → are_ended store.disk ≡ true
      → IsIndexed store
      → IsIndexed (append store es now written).0
  unfolding append count_key
  append-IsIndexed store es now written h clean ended ok k =
      let lines = map line (admit now es store.seen).accepted in
      ground (
        arith,
        ok k,
        count_key-admit k now es store.seen,
        forget-admit k now es store.seen,
        read_segment-lines now es store.seen h,
        write_lines-clean written (segment_day now) lines store.disk clean,
        held-append_file k (segment_day now) lines store.disk ended,
      )

  pub append-ended :
      (store : EventStore Num) (es : List (PlaybackEvent Num)) (now : ℕ) (written : Written)
      → is_clean written ≡ true
      → are_ended store.disk ≡ true
      → are_ended (append store es now written).0.disk ≡ true
  unfolding append
  append-ended store es now written clean ended =
      let lines = map line (admit now es store.seen).accepted in
      ground (
        arith,
        ended,
        write_lines-clean written (segment_day now) lines store.disk clean,
        append_file-ended (segment_day now) lines store.disk ended,
      )

  module _ {H : Type 0} (on_segment : H → ℕ → List (StoredEvent Num) → H × Bool) where
    -- In the middle of a sweep: what was kept, and what is still to be looked at.
    abbrev pub AgreesWith : Sweep f H → List (Segment Num) → Type 0
    AgreesWith w rest = (k : String) → held k w.kept + held k rest ≡ indicator (includes w.seen k)

    pub held-snoc :
        (k : String) (s : Segment Num) (disk : List (Segment Num))
        → held k (disk ++ s ∷ []) ≡ held k disk + count_key k (read_segment f s.lines)
    unfolding replay count_key
    held-snoc k s [] = omega (arith, count_key-append k (read_segment f s.lines) [])
    held-snoc k s (t ∷ disk) = omega (
      arith,
      held-snoc k s disk,
      count_key-append k (read_segment f t.lines) (replay f (disk ++ s ∷ [])),
      count_key-append k (read_segment f t.lines) (replay f disk),
    )

    sweep_segment-AgreesWith :
        (max_age now : ℕ) (s : Segment Num) (rest : List (Segment Num)) (w : Sweep f H)
        → AgreesWith w (s ∷ rest)
        → AgreesWith (sweep_segment f on_segment max_age now s w) rest
    unfolding sweep_segment replay
    sweep_segment-AgreesWith max_age now s rest w ok k = ground (
      arith,
      ok k,
      held-snoc k s w.kept,
      count_key-append k (read_segment f s.lines) (replay f rest),
      includes-forget k (read_segment f s.lines) w.seen,
    )

    sweep_segments-AgreesWith :
        (max_age now : ℕ) (disk : List (Segment Num)) (w : Sweep f H)
        → AgreesWith w disk
        → AgreesWith (sweep_segments f on_segment max_age now disk w) []
    unfolding sweep_segments
    sweep_segments-AgreesWith max_age now [] w ok = ok
    sweep_segments-AgreesWith max_age now (s ∷ disk) w ok =
        sweep_segments-AgreesWith max_age now disk (sweep_segment f on_segment max_age now s w)
          (sweep_segment-AgreesWith max_age now s disk w ok)

    pub sweep-IsIndexed :
        (max_age now : ℕ) (hook : H) (store : EventStore Num)
        → IsIndexed store
        → IsIndexed (after_sweep f on_segment store (sweep f on_segment max_age now hook store))
    unfolding sweep count_key replay
    sweep-IsIndexed max_age now hook store ok k =
        let begins : AgreesWith (start_sweep f hook store) store.disk = λ j. omega (arith, ok j) in
        omega (
          arith,
          sweep_segments-AgreesWith max_age now store.disk (start_sweep f hook store) begins k,
        )

  pub includes-index_events :
      (k : String) (es : List (StoredEvent Num)) (seen : List String)
      → includes (index_events f es seen) k ≡ (ltb 0 (count_key k es) || includes seen k)
  unfolding index_events count_key
  includes-index_events k [] seen = refl
  includes-index_events k (e ∷ es) seen = ground (
    arith,
    includes-index_events k es (add seen (stored_key e)),
    includes-add seen (stored_key e) k,
  )

  -- A launch on the disk of an indexed store finds the same events.
  pub launch-includes :
      (store : EventStore Num) (k : String)
      → IsIndexed store
      → includes (launch f store.disk).seen k ≡ includes store.seen k
  unfolding launch open_store
  launch-includes store k ok =
      ground (arith, ok k, includes-index_events k (replay f store.disk) [])

  pub launch-IsIndexed :
      (store : EventStore Num) → IsIndexed store → IsIndexed (launch f store.disk)
  unfolding launch open_store
  launch-IsIndexed store ok k = ground (arith, ok k, launch-includes store k ok)
