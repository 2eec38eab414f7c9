-- ===== src/Ranges.antt =====
-- Byte ranges of a blob download (apps/electron-client/src/blobHttp.ts, parseRange).
pub mod Served
use mathlib.Core.Bool.{◌&&◌, ◌&&◌, ◌&&◌, ◌&&◌, ◌&&◌}
use Prim.Native.Char.{code}
use Prim.Native.String.{[] as nil_text, ◌∷◌ as cons_text}
use tapes_monorepo.Base.{
  ℕ, ◌+◌, ◌-◌, ◌*◌, min, String, Option, none, some, if◌then◌else◌, ltb, leb, text_eq, nat_eq, ◌==◌,
  is_digit,
}

-- `size - 1`, which is -1 for an empty blob
pub data LastByte : Type 0 where
  at : ℕ → LastByte
  minus_one : LastByte

-- `whole` is the kind `none` of the source.
pub data ParsedRange : Type 0 where
  ok : ℕ → LastByte → ParsedRange
  unsatisfiable : ParsedRange
  whole : ParsedRange

abbrev pub last_byte : ℕ → LastByte
last_byte size = if size == 0 then minus_one else at (size - 1)

-- `(\d*)` with its `Number`, absent where there is no digit, and what follows it
abbrev pub read_number : Option ℕ → String → Option ℕ × String
read_number n nil_text = (n, nil_text)
read_number n (cons_text c s) =
    let value : ℕ = elim n [ none ↦ 0 | some v ↦ v ] in
    let rest = read_number (some (value * 10 + (code c - b'0'))) s in
    if is_digit (code c) then rest else (n, cons_text c s)

-- what follows the text, where it begins with it
abbrev pub after_prefix : String → String → Option String
after_prefix nil_text s = some s
after_prefix (cons_text p ps) nil_text = none
after_prefix (cons_text p ps) (cons_text c s) =
    let rest = after_prefix ps s in if code p == code c then rest else none

-- `/^bytes=(\d*)-(\d*)$/`
unfoldable pub match_range : String → Option (Option ℕ × Option ℕ)
match_range header = elim (after_prefix "bytes=" header) [
  | none ↦ none
  | some numbers ↦
      let (start, dashed) = read_number none numbers in
      elim (after_prefix "-" dashed) [
        | none ↦ none
        | some ends ↦
            let (last, rest) = read_number none ends in
            if rest == "" then some (start, last) else none
      ]
]

-- behind the match
unfoldable pub range_of : Option ℕ → Option ℕ → ℕ → ParsedRange
range_of none none size = unsatisfiable
range_of none (some suffix) size =
    if suffix == 0 then unsatisfiable else ok (size - suffix) (last_byte size)
range_of (some start) none size =
    if leb size start then unsatisfiable else ok start (last_byte size)
range_of (some start) (some last) size =
    if leb size start
    then unsatisfiable
    else let bounded = min last (size - 1) in
      if ltb bounded start then unsatisfiable else ok start (at bounded)

-- The header is the one that `trim` leaves.
unfoldable pub parse_range : Option String → ℕ → ParsedRange
unfolding match_range range_of
parse_range none size = whole
parse_range (some header) size =
    if header == ""
    then whole
    else elim (match_range header) [ none ↦ whole | some (start, last) ↦ range_of start last size ]
