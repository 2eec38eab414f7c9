-- ===== src/Encoding/RoundTrip.antt =====
-- encoding.ts: bytes and their one spelling.
use tapes_monorepo.Base.{
  ℕ, zero, suc, ◌+◌, ◌-◌, ◌*◌, ◌/◌, ◌%◌, ◌^◌, ◌≤◌, ◌<◌, Bool, true, false, ◌&&◌, List, [], ◌∷◌, ◌≢◌,
  inl, inr, none, some, ◌≡◌, refl, arith, if◌then◌else◌, leb, text_eq, nat_eq, ◌==◌, Bool-cases,
  or_else, length, get_elem?, All,
}
use tapes_monorepo.Encoding.{
  Text, base64_url, char_of, index_from, index_of, chars_for, to_base64_url, decode_from,
  from_base64_url,
}

abbrev pub next : ℕ → ℕ → ℕ
next buffer value = (buffer * 64 + value) % 2 ^ 24

abbrev pub sixth : ℕ → ℕ → ℕ
sixth chunk c = (chunk / 2 ^ (18 - c * 6)) % 64

second_byte :
    (buffer v w : ℕ) → v < 64 → w < 64 → (next (next buffer v) w / 2 ^ 4) % 256 ≡ v * 4 + w / 16
second_byte buffer v w hv hw = omega arith

pub third_byte :
    (buffer v w : ℕ)
    → v < 64
    → w < 64
    → (next (next buffer v) w / 2 ^ 2) % 256 ≡ (v % 16) * 16 + w / 4
third_byte buffer v w hv hw = omega arith

fourth_byte :
    (buffer v w : ℕ) → v < 64 → w < 64 → (next (next buffer v) w / 2 ^ 0) % 256 ≡ (v % 4) * 64 + w
fourth_byte buffer v w hv hw = omega arith

chunk_bytes :
    (a b c : ℕ)
    → a < 256
    → b < 256
    → c < 256
    → let chunk = a * 65_536 + b * 256 + c in
      (sixth chunk 0 * 4 + sixth chunk 1 / 16 ≡ a)
      × ((sixth chunk 1 % 16) * 16 + sixth chunk 2 / 4 ≡ b)
      × ((sixth chunk 2 % 4) * 64 + sixth chunk 3 ≡ c)
chunk_bytes a b c ha hb hc = (omega arith, omega arith, omega arith)

finds : ℕ → Bool
unfolding index_of char_of
finds v = elim (index_of (char_of v)) [ none ↦ false | some w ↦ w == v ]

all_below : ℕ → (ℕ → Bool) → Bool
all_below zero p = true
all_below (suc n) p = p n && all_below n p

all_below-holds : (n : ℕ) (p : ℕ → Bool) (x : ℕ) → all_below n p ≡ true → x < n → p x ≡ true
unfolding all_below
all_below-holds zero p x h lt = absurd (omega arith)
all_below-holds (suc n) p x h lt = ground (arith, all_below-holds n p x)

finds_table : all_below 64 finds ≡ true
unfolding all_below finds
finds_table = refl

index_of-char_of : (v : ℕ) → v < 64 → index_of (char_of v) ≡ some v
unfolding finds
index_of-char_of v h = ground (arith, all_below-holds 64 finds v finds_table h)

index_from_lem :
    (i char : ℕ) (cs : Text) (v : ℕ)
    → index_from i char cs ≡ some v
    → (i ≤ v) × (v < i + length cs) × (or_else (get_elem? cs (v - i)) 0 ≡ char)
index_from_lem i char [] v h = absurd (ground (arith, h))
index_from_lem i char (c ∷ cs) v h = elim (Bool-cases (c == char)) [
  | inl here ↦
      let at_start : v - i ≡ 0 = ground (arith, h, here) in
      (ground (arith, h, here), ground (arith, h, here), rw at_start (ground (arith, here)))
  | inr later ↦
      let (above, below, found) = index_from_lem (i + 1) char cs v (ground (arith, h, later)) in
      let past_start : v - i ≡ suc (v - (i + 1)) = omega (arith, above) in
      (omega (arith, above), omega (arith, below), rw past_start found)
]

pub char_of-index_of : (char v : ℕ) → index_of char ≡ some v → (char_of v ≡ char) × (v < 64)
unfolding index_of char_of
char_of-index_of char v h =
    let (above, below, found) = index_from_lem 0 char base64_url v h in
    let same : v - 0 ≡ v = omega arith in (rw same at found, omega (arith, below))

-- Bytes that are in range.
abbrev pub AreBytes : List ℕ → Type 0
AreBytes = All (λ b. b < 256)

pub decode-char :
    (buffer bits v : ℕ) (chars : Text)
    → v < 64
    → decode_from buffer bits (char_of v ∷ chars) ≡ (
        if leb 8 (bits + 6)
        then elim (decode_from (next buffer v) (bits + 6 - 8) chars) [
          | none ↦ none
          | some bytes ↦ some ((next buffer v / 2 ^ (bits + 6 - 8)) % 256 ∷ bytes)
        ]
        else decode_from (next buffer v) (bits + 6) chars)
unfolding decode_from
decode-char buffer bits v chars h = ground (arith, index_of-char_of v h)

-- what follows a group of four characters
abbrev pub after_four : ℕ → ℕ → ℕ → ℕ → ℕ → ℕ
after_four buffer v w x y = next (next (next (next buffer v) w) x) y

pub decode-two :
    (buffer v w : ℕ) (chars : Text)
    → v < 64
    → w < 64
    → decode_from buffer 0 (char_of v ∷ char_of w ∷ chars)
      ≡ elim (decode_from (next (next buffer v) w) 4 chars) [
        | none ↦ none
        | some bytes ↦ some ((v * 4 + w / 16) ∷ bytes)
      ]
decode-two buffer v w chars hv hw = ground (
  arith,
  decode-char buffer 0 v (char_of w ∷ chars),
  decode-char (next buffer v) 6 w chars,
  second_byte buffer v w,
)

pub decode-four :
    (buffer v w x y : ℕ) (chars : Text)
    → v < 64
    → w < 64
    → x < 64
    → y < 64
    → decode_from buffer 0 (char_of v ∷ char_of w ∷ char_of x ∷ char_of y ∷ chars)
      ≡ elim (decode_from (after_four buffer v w x y) 0 chars) [
        | none ↦ none
        | some bytes ↦
            some ((v * 4 + w / 16) ∷ ((w % 16) * 16 + x / 4) ∷ ((x % 4) * 64 + y) ∷ bytes)
      ]
decode-four buffer v w x y chars hv hw hx hy = ground (
  arith,
  decode-two buffer v w (char_of x ∷ char_of y ∷ chars),
  decode-char (next (next buffer v) w) 4 x (char_of y ∷ chars),
  decode-char (next (next (next buffer v) w) x) 2 y chars,
  third_byte (next buffer v) w x,
  fourth_byte (next (next buffer v) w) x y,
)

-- The end of a text, with no bits, four or two left over.
pub decode-end_zero : (buffer : ℕ) → decode_from buffer 0 [] ≡ some []
unfolding decode_from
decode-end_zero buffer = ground arith

pub decode-end_four :
    (buffer w : ℕ)
    → w < 64
    → decode_from (next buffer w) 4 [] ≡ (if w % 16 == 0 then some [] else none)
unfolding decode_from
decode-end_four buffer w h =
    let low : next buffer w % 16 ≡ w % 16 = omega arith in ground (arith, low)

pub decode-end_two :
    (buffer x : ℕ)
    → x < 64
    → decode_from (next buffer x) 2 [] ≡ (if x % 4 == 0 then some [] else none)
unfolding decode_from
decode-end_two buffer x h = let low : next buffer x % 4 ≡ x % 4 = omega arith in ground (arith, low)

decode_from-to_base64_url :
    (buffer : ℕ) (bytes : List ℕ)
    → AreBytes bytes
    → decode_from buffer 0 (to_base64_url bytes) ≡ some bytes
unfolding to_base64_url
decode_from-to_base64_url buffer [] small = decode-end_zero buffer
decode_from-to_base64_url buffer (a ∷ []) (ha, small) =
    let v = sixth (a * 65_536) 0 in
    let w = sixth (a * 65_536) 1 in
    ground (
      arith,
      decode-two buffer v w [] (omega arith) (omega arith),
      decode-end_four (next buffer v) w (omega arith),
      chunk_bytes a 0 0 ha,
    )
decode_from-to_base64_url buffer (a ∷ b ∷ []) (ha, (hb, small)) =
    let chunk = a * 65_536 + b * 256 in
    let v = sixth chunk 0 in
    let w = sixth chunk 1 in
    let x = sixth chunk 2 in
    ground (
      arith,
      decode-two buffer v w (char_of x ∷ []) (omega arith) (omega arith),
      decode-char (next (next buffer v) w) 4 x [] (omega arith),
      decode-end_two (next (next buffer v) w) x (omega arith),
      third_byte (next buffer v) w x,
      chunk_bytes a b 0 ha hb,
    )
decode_from-to_base64_url buffer (a ∷ b ∷ c ∷ rest) (ha, (hb, (hc, small))) =
    let chunk = a * 65_536 + b * 256 + c in
    let v = sixth chunk 0 in
    let w = sixth chunk 1 in
    let x = sixth chunk 2 in
    let y = sixth chunk 3 in
    let all_four : chars_for (length (a ∷ b ∷ c ∷ rest)) ≡ 4 = ground arith in
    rw all_four (
      ground (
        arith,
        decode-four buffer v w x y (to_base64_url rest) (omega arith) (omega arith) (omega arith)
            (omega arith),
        decode_from-to_base64_url (after_four buffer v w x y) rest small,
        chunk_bytes a b c,
      ))

spelling_length : (bytes : List ℕ) → length (to_base64_url bytes) % 4 ≢ 1
unfolding to_base64_url
spelling_length [] = ground arith
spelling_length (a ∷ []) = ground arith
spelling_length (a ∷ b ∷ []) = ground arith
spelling_length (a ∷ b ∷ c ∷ rest) =
    let all_four : chars_for (length (a ∷ b ∷ c ∷ rest)) ≡ 4 = ground arith in
    rw all_four (ground (arith, spelling_length rest))

pub from_base64_url-to_base64_url :
    (bytes : List ℕ) → AreBytes bytes → from_base64_url (to_base64_url bytes) ≡ some bytes
unfolding from_base64_url
from_base64_url-to_base64_url bytes small =
    ground (arith, spelling_length bytes, decode_from-to_base64_url 0 bytes small)
