-- ===== src/Encoding.antt =====
-- Unpadded base64url (packages/provenance/lib/encoding.ts). A text is the list of its codes, and bytes
-- are numbers below 256. The parts of a chunk do not overlap, so `|` is a sum, and `&` with a mask of
-- low bits is a remainder.
pub mod RoundTrip
pub mod OneSpelling
use Prim.Native.Char.{code}
use Prim.Native.String.{[] as nil_text, ◌∷◌ as cons_text}
use tapes_monorepo.Base.{
  ℕ, zero, suc, ◌+◌, ◌-◌, ◌*◌, ◌/◌, ◌%◌, ◌^◌, min, String, List, [], ◌∷◌, ◌++◌, Option, none, some,
  if◌then◌else◌, leb, text_eq, nat_eq, ◌==◌, or_else, length, get_elem?,
}

abbrev pub Text : Type 0
Text = List ℕ

abbrev codes : String → Text
codes nil_text = []
codes (cons_text c s) = code c ∷ codes s

abbrev pub base64_url : Text
base64_url = codes "ABCDEFGHIJKLMNOPQRSTUVWXYZabcdefghijklmnopqrstuvwxyz0123456789-_"

-- `BASE64URL[value]`
unfoldable pub char_of : ℕ → ℕ
char_of value = or_else (get_elem? base64_url value) 0

-- `alphabet.indexOf(char)`, from an index on
abbrev pub index_from : ℕ → ℕ → Text → Option ℕ
index_from i char [] = none
index_from i char (c ∷ cs) =
    let rest = index_from (i + 1) char cs in if c == char then some i else rest

unfoldable pub index_of : ℕ → Option ℕ
index_of char = index_from 0 char base64_url

-- the inner loop, from a position on and for so many characters
abbrev pub emit : ℕ → ℕ → ℕ → Text
emit chunk c zero = []
emit chunk c (suc n) = char_of ((chunk / 2 ^ (18 - c * 6)) % 64) ∷ emit chunk (c + 1) n

-- `Math.min(4, Math.ceil((left * 8) / 6))`
abbrev pub chars_for : ℕ → ℕ
chars_for left = min 4 ((left * 8 + 5) / 6)

unfoldable pub to_base64_url : List ℕ → Text
to_base64_url [] = []
to_base64_url (a ∷ []) = emit (a * 65_536) 0 (chars_for 1)
to_base64_url (a ∷ b ∷ []) = emit (a * 65_536 + b * 256) 0 (chars_for 2)
to_base64_url (a ∷ b ∷ c ∷ rest) =
    emit (a * 65_536 + b * 256 + c) 0 (chars_for (length (a ∷ b ∷ c ∷ rest))) ++ to_base64_url rest

-- The loop over the characters, with the buffer and how many of its bits are left over.
unfoldable pub decode_from : ℕ → ℕ → Text → Option (List ℕ)
decode_from buffer bits [] = if buffer % 2 ^ bits == 0 then some [] else none
decode_from buffer bits (char ∷ chars) = elim (index_of char) [
  | none ↦ none
  | some value ↦
      let filled = (buffer * 64 + value) % 2 ^ 24 in
      if leb 8 (bits + 6)
      then elim (decode_from filled (bits + 6 - 8) chars) [
        | none ↦ none
        | some bytes ↦ some ((filled / 2 ^ (bits + 6 - 8)) % 256 ∷ bytes)
      ]
      else decode_from filled (bits + 6) chars
]

unfoldable pub from_base64_url : Text → Option (List ℕ)
unfolding decode_from
from_base64_url text = if length text % 4 == 1 then none else decode_from 0 0 text
