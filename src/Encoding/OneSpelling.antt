-- ===== src/Encoding/OneSpelling.antt =====
-- encoding.ts: what is decoded is spelled in one way.
use tapes_monorepo.Base.{
  ℕ, ◌+◌, ◌-◌, ◌*◌, ◌/◌, ◌%◌, ◌<◌, List, [], ◌∷◌, ◌≢◌, ◌↔◌, inl, inr, some, ◌≡◌, refl, sym, ◌∙◌,
  arith, if◌then◌else◌, leb, text_eq, nat_eq, Option-cases, length,
}
use tapes_monorepo.Encoding.{
  Text, char_of, index_of, chars_for, to_base64_url, decode_from, from_base64_url,
}
use tapes_monorepo.Encoding.RoundTrip.{
  next, sixth, third_byte, char_of-index_of, AreBytes, decode-char, after_four, decode-two,
  decode-four, decode-end_zero, decode-end_four, decode-end_two, from_base64_url-to_base64_url,
}

abbrev bits_left : ℕ → ℕ
bits_left bits = if leb 8 (bits + 6) then bits + 6 - 8 else bits + 6

first_char :
    (buffer bits char : ℕ) (chars : Text) (bytes : List ℕ)
    → decode_from buffer bits (char ∷ chars) ≡ some bytes
    → (v : ℕ) × (char_of v ≡ char)
      × (v < 64)
      × (rest : List ℕ) × (decode_from (next buffer v) (bits_left bits) chars ≡ some rest)
unfolding decode_from
first_char buffer bits char chars bytes h = elim (Option-cases (index_of char)) [
  | inl strange ↦ absurd (ground (arith, h, strange))
  | inr (v, known) ↦
      let (same, small) = char_of-index_of char v known in
      elim (Option-cases (decode_from (next buffer v) (bits_left bits) chars)) [
        | inl bad ↦ absurd (ground (arith, h, known, bad))
        | inr (rest, good) ↦ (v, same, small, rest, good)
      ]
]

two_chars :
    (v w : ℕ)
    → v < 64
    → w < 64
    → w % 16 ≡ 0
    → to_base64_url ((v * 4 + w / 16) ∷ []) ≡ char_of v ∷ char_of w ∷ []
unfolding to_base64_url
two_chars v w hv hw tail =
    let a = v * 4 + w / 16 in
    let first : sixth (a * 65_536) 0 ≡ v = omega arith in
    let second : sixth (a * 65_536) 1 ≡ w = omega arith in rw (first, second)

three_chars :
    (v w x : ℕ)
    → v < 64
    → w < 64
    → x < 64
    → x % 4 ≡ 0
    → to_base64_url ((v * 4 + w / 16) ∷ ((w % 16) * 16 + x / 4) ∷ [])
      ≡ char_of v ∷ char_of w ∷ char_of x ∷ []
unfolding to_base64_url
three_chars v w x hv hw hx tail =
    let chunk = (v * 4 + w / 16) * 65_536 + ((w % 16) * 16 + x / 4) * 256 in
    let first : sixth chunk 0 ≡ v = omega arith in
    let second : sixth chunk 1 ≡ w = omega arith in
    let third : sixth chunk 2 ≡ x = omega arith in rw (first, second, third)

four_spelled :
    (a b c : ℕ) (rest : List ℕ)
    → let chunk = a * 65_536 + b * 256 + c in
      to_base64_url (a ∷ b ∷ c ∷ rest)
      ≡ char_of (sixth chunk 0)
        ∷ char_of (sixth chunk 1)
        ∷ char_of (sixth chunk 2)
        ∷ char_of (sixth chunk 3)
        ∷ to_base64_url rest
unfolding to_base64_url
four_spelled a b c rest =
    let all_four : chars_for (length (a ∷ b ∷ c ∷ rest)) ≡ 4 = ground arith in rw all_four

four_chars :
    (v w x y : ℕ) (rest : List ℕ)
    → v < 64
    → w < 64
    → x < 64
    → y < 64
    → to_base64_url ((v * 4 + w / 16) ∷ ((w % 16) * 16 + x / 4) ∷ ((x % 4) * 64 + y) ∷ rest)
      ≡ char_of v ∷ char_of w ∷ char_of x ∷ char_of y ∷ to_base64_url rest
four_chars v w x y rest hv hw hx hy =
    let chunk = (v * 4 + w / 16) * 65_536 + ((w % 16) * 16 + x / 4) * 256 + ((x % 4) * 64 + y) in
    let first : sixth chunk 0 ≡ v = omega arith in
    let second : sixth chunk 1 ≡ w = omega arith in
    let third : sixth chunk 2 ≡ x = omega arith in
    let fourth : sixth chunk 3 ≡ y = omega arith in
    four_spelled (v * 4 + w / 16) ((w % 16) * 16 + x / 4) ((x % 4) * 64 + y) rest
    ∙ rw (first, second, third, fourth)

nothing_spelled : to_base64_url [] ≡ []
unfolding to_base64_url
nothing_spelled = refl

-- The text that is decoded from a buffer with no bits left over.
decoded_spelling :
    (buffer : ℕ) (text : Text) (bytes : List ℕ)
    → decode_from buffer 0 text ≡ some bytes
    → length text % 4 ≢ 1
    → to_base64_url bytes ≡ text
decoded_spelling buffer [] bytes h size =
    let nothing : bytes ≡ [] = ground (arith, h, decode-end_zero buffer) in
    rw nothing nothing_spelled
decoded_spelling buffer (p ∷ []) bytes h size = absurd (size refl)
decoded_spelling buffer (p ∷ q ∷ []) bytes h size =
    let (v, is_p, hv, after_p, at_q) = first_char buffer 0 p (q ∷ []) bytes h in
    let (w, is_q, hw, after_q, at_end) = first_char (next buffer v) 6 q [] after_p at_q in
    let step = decode-two buffer v w [] hv hw in
    let end = decode-end_four (next buffer v) w hw in
    let tail : w % 16 ≡ 0 = ground (arith, h, is_p, is_q, step, end) in
    let all : bytes ≡ (v * 4 + w / 16) ∷ [] = ground (arith, h, is_p, is_q, step, end) in
    ground (arith, all, two_chars v w hv hw tail, is_p, is_q)
decoded_spelling buffer (p ∷ q ∷ r ∷ []) bytes h size =
    let (v, is_p, hv, after_p, at_q) = first_char buffer 0 p (q ∷ r ∷ []) bytes h in
    let (w, is_q, hw, after_q, at_r) = first_char (next buffer v) 6 q (r ∷ []) after_p at_q in
    let (x, is_r, hx, after_r, at_end) = first_char (next (next buffer v) w) 4 r [] after_q at_r in
    let step = decode-two buffer v w (char_of x ∷ []) hv hw in
    let last = decode-char (next (next buffer v) w) 4 x [] hx in
    let end = decode-end_two (next (next buffer v) w) x hx in
    let middle = third_byte (next buffer v) w x hw hx in
    let tail : x % 4 ≡ 0 = ground (arith, h, is_p, is_q, is_r, step, last, end, middle) in
    let all : bytes ≡ (v * 4 + w / 16) ∷ ((w % 16) * 16 + x / 4) ∷ [] =
      ground (arith, h, is_p, is_q, is_r, step, last, end, middle) in
    ground (arith, all, three_chars v w x hv hw hx tail, is_p, is_q, is_r)
decoded_spelling buffer (p ∷ q ∷ r ∷ s ∷ chars) bytes h size =
    let (v, is_p, hv, after_p, at_q) = first_char buffer 0 p (q ∷ r ∷ s ∷ chars) bytes h in
    let (w, is_q, hw, after_q, at_r) =
      first_char (next buffer v) 6 q (r ∷ s ∷ chars) after_p at_q in
    let (x, is_r, hx, after_r, at_s) =
      first_char (next (next buffer v) w) 4 r (s ∷ chars) after_q at_r in
    let (y, is_s, hy, rest, at_chars) =
      first_char (next (next (next buffer v) w) x) 2 s chars after_r at_s in
    let all : bytes ≡ (v * 4 + w / 16) ∷ ((w % 16) * 16 + x / 4) ∷ ((x % 4) * 64 + y) ∷ rest =
      ground (
        arith,
        h,
        is_p,
        is_q,
        is_r,
        is_s,
        at_chars,
        decode-four buffer v w x y chars hv hw hx hy,
      ) in
    ground (
      arith,
      all,
      four_chars v w x y rest hv hw hx hy,
      decoded_spelling (after_four buffer v w x y) chars rest at_chars (λ e. size (omega arith)),
      is_p,
      is_q,
      is_r,
      is_s,
    )

-- Bytes are read back from their text, and a text that is read is the one that its bytes are written
-- as: each sequence of bytes has one spelling, and every other text is refused.
pub base64_url_lem :
    (bytes : List ℕ) (text : Text)
    → AreBytes bytes
    → (from_base64_url text ≡ some bytes) ↔ (text ≡ to_base64_url bytes)
unfolding from_base64_url
base64_url_lem bytes text small = (
  λ read. sym (decoded_spelling 0 text bytes (ground (arith, read)) (λ e. ground (arith, read, e))),
  λ spelled. rw spelled (from_base64_url-to_base64_url bytes small),
)
