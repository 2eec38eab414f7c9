-- ===== src/Ranges/Served.antt =====
-- blobHttp.ts: which bytes a range asks for.
use tapes_monorepo.Base.{
  ℕ, ◌+◌, String, Bool, false, ◌&&◌, inl, inr, Option, none, some, ◌≡◌, refl, sym, subst, arith,
  eq_iff, ltb, leb, text_eq, nat_eq, ◌==◌, Bool-cases, Option-cases,
}
use tapes_monorepo.Ranges.{
  ParsedRange, match_range, range_of, parse_range, at, minus_one, ok, unsatisfiable, whole,
}

-- Whether the byte at an offset is in the answer to a request.
abbrev pub in_answer : ParsedRange → ℕ → ℕ → Bool
in_answer unsatisfiable size i = false
in_answer whole size i = ltb i size
in_answer (ok start (at last)) size i = leb start i && leb i last
in_answer (ok start minus_one) size i = false

-- Whether a range asks for the byte: from an offset, up to an offset, or the last ones.
abbrev pub asks_for : Option ℕ → Option ℕ → ℕ → ℕ → Bool
asks_for none none size i = false
asks_for none (some suffix) size i = ltb i size && leb size (i + suffix)
asks_for (some start) none size i = leb start i && ltb i size
asks_for (some start) (some last) size i = leb start i && leb i last && ltb i size

abbrev pub asked : Option String → ℕ → ℕ → Bool
asked none size i = ltb i size
asked (some header) size i = elim (match_range header) [
  | none ↦ ltb i size
  | some (start, last) ↦ asks_for start last size i
]

range_of-in_answer :
    (start last : Option ℕ) (size i : ℕ)
    → in_answer (range_of start last size) size i ≡ asks_for start last size i
unfolding range_of
range_of-in_answer none none size i = refl
range_of-in_answer none (some suffix) size i = ground arith
range_of-in_answer (some start) none size i = ground arith
range_of-in_answer (some start) (some last) size i = ground arith

empty_header : (size i : ℕ) → in_answer (parse_range (some "") size) size i ≡ asked (some "") size i
unfolding parse_range match_range
empty_header size i = refl

-- The answer to a request has exactly the bytes of the blob that its range asks for, from an offset,
-- between two offsets or the last ones, and all of them where there is no range or it is not read.
pub parse_range-in_answer :
    (header : Option String) (size i : ℕ)
    → in_answer (parse_range header size) size i ≡ asked header size i
unfolding parse_range
parse_range-in_answer none size i = refl
parse_range-in_answer (some header) size i = elim (Bool-cases (header == "")) [
  | inl empty ↦
      let blank : header ≡ "" = ground (arith, empty, eq_iff header "") in
      subst (λ h. in_answer (parse_range (some h) size) size i ≡ asked (some h) size i) (sym blank)
        (empty_header size i)
  | inr full ↦ elim (Option-cases (match_range header)) [
    | inl unread ↦ ground (arith, full, unread)
    | inr ((start, last), read) ↦ ground (arith, full, read, range_of-in_answer start last size i)
  ]
]
