-- ===== src/EventStore/Torn.antt =====
-- eventStore.ts: crashes in the middle of a write.
use tapes_monorepo.Base.{
  ℕ, zero, suc, ◌+◌, ◌≤◌, String, Bool, false, List, [], ◌∷◌, ◌++◌, arith, text_eq, nat_eq, list_eq,
  Float,
}
use tapes_monorepo.EventStore.{
  Line, Segment, Ending, Written, cut, spoil_last, join_lines, append_file, write_lines,
  read_segment, replay, line, torn, nothing_more, a_fragment, no_newline, whole, part,
}
use tapes_monorepo.EventStore.Once.{count_key, count_key-append, held, read_segment-append}

module _ (f : Float) where
  open f use {Num, is_finite}

  pub count_key-spoil_last :
      (k : String) (ls : List (Line Num))
      → count_key k (read_segment f (spoil_last ls)) ≤ count_key k (read_segment f ls)
  unfolding spoil_last read_segment count_key
  count_key-spoil_last k [] = omega arith
  count_key-spoil_last k (l ∷ []) = omega arith
  count_key-spoil_last k (torn ∷ m ∷ ls) = ground (arith, count_key-spoil_last k (m ∷ ls))
  count_key-spoil_last k (line e ∷ m ∷ ls) = ground (arith, count_key-spoil_last k (m ∷ ls))

  -- What a line adds is never less than nothing.
  count_key-tail :
      (k : String) (l : Line Num) (ls : List (Line Num))
      → count_key k (read_segment f ls) ≤ count_key k (read_segment f (l ∷ ls))
  unfolding read_segment count_key
  count_key-tail k torn ls = omega arith
  count_key-tail k (line e) ls = ground arith

  count_key-join_lines :
      (k : String) (unended : Bool) (old ls : List (Line Num))
      → count_key k (read_segment f (join_lines unended old ls))
        ≤ count_key k (read_segment f ls) + count_key k (read_segment f old)
  unfolding join_lines
  count_key-join_lines k unended old [] = omega arith
  count_key-join_lines k unended old (l ∷ ls) = ground (
    arith,
    count_key-spoil_last k old,
    count_key-tail k l ls,
    read_segment-append f (spoil_last old) ls,
    count_key-append k (read_segment f (spoil_last old)) (read_segment f ls),
    read_segment-append f old (l ∷ ls),
    count_key-append k (read_segment f old) (read_segment f (l ∷ ls)),
  )

  pub held-append_file-le :
      (k : String) (day : ℕ) (ls : List (Line Num)) (unended : Bool) (disk : List (Segment Num))
      → held f k (append_file day ls unended disk) ≤ count_key k (read_segment f ls) + held f k disk
  unfolding append_file replay count_key
  held-append_file-le k day [] unended disk = omega arith
  held-append_file-le k day (l ∷ ls) unended [] =
      omega (arith, count_key-append k (read_segment f (l ∷ ls)) [])
  held-append_file-le k day (l ∷ ls) unended (s ∷ disk) = ground (
    arith,
    held-append_file-le k day (l ∷ ls) unended disk,
    count_key-join_lines k s.unended s.lines (l ∷ ls),
    count_key-append k (read_segment f (join_lines s.unended s.lines (l ∷ ls))) (replay f disk),
    count_key-append k (read_segment f s.lines) (replay f disk),
    count_key-append k (read_segment f s.lines) (replay f (append_file day (l ∷ ls) unended disk)),
    count_key-append k (read_segment f (l ∷ ls)) (read_segment f s.lines ++ replay f disk),
  )

  count_key-cut :
      (k : String) (n : ℕ) (ending : Ending) (ls : List (Line Num))
      → count_key k (read_segment f (cut n ending ls).0) ≤ count_key k (read_segment f ls)
  unfolding cut read_segment count_key
  count_key-cut k n ending [] = omega arith
  count_key-cut k zero nothing_more (l ∷ ls) = omega arith
  count_key-cut k zero a_fragment (l ∷ ls) = omega arith
  count_key-cut k zero no_newline (torn ∷ ls) = omega arith
  count_key-cut k zero no_newline (line e ∷ ls) = ground arith
  count_key-cut k (suc n) ending (torn ∷ ls) = ground (arith, count_key-cut k n ending ls)
  count_key-cut k (suc n) ending (line e ∷ ls) = ground (arith, count_key-cut k n ending ls)

  pub held-write_lines-le :
      (k : String) (written : Written) (day : ℕ) (ls : List (Line Num)) (disk : List (Segment Num))
      → held f k (write_lines written day ls disk) ≤ count_key k (read_segment f ls) + held f k disk
  unfolding write_lines
  held-write_lines-le k whole day ls disk = held-append_file-le k day ls false disk
  held-write_lines-le k (part n ending) day ls disk =
      let (some_lines, unended) = cut n ending ls in
      omega (arith, held-append_file-le k day some_lines unended disk, count_key-cut k n ending ls)
