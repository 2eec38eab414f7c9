-- ===== src/Tests/Encodings.antt =====
-- encoding.ts on small inputs.
use tapes_monorepo.Base.{[], ◌∷◌, ◌↔◌, none, some, ◌≡◌, refl, arith, text_eq, nat_eq, list_eq}
use tapes_monorepo.Encoding.RoundTrip.{}
use tapes_monorepo.Encoding.OneSpelling.{base64_url_lem}
use tapes_monorepo.Encoding.{char_of, index_of, to_base64_url, from_base64_url}

three_bytes : to_base64_url (77 ∷ 97 ∷ 110 ∷ []) ≡ b'T' ∷ b'W' ∷ b'F' ∷ b'u' ∷ []
unfolding to_base64_url char_of
three_bytes = refl

two_bytes : from_base64_url (b'T' ∷ b'W' ∷ b'E' ∷ []) ≡ some (77 ∷ 97 ∷ [])
unfolding from_base64_url index_of
two_bytes = refl

stray_bits : from_base64_url (b'T' ∷ b'W' ∷ b'F' ∷ []) ≡ none
unfolding from_base64_url index_of
stray_bits = refl

base64_url_example :
    (from_base64_url (b'T' ∷ b'W' ∷ b'E' ∷ []) ≡ some (77 ∷ 97 ∷ []))
    ↔ (b'T' ∷ b'W' ∷ b'E' ∷ [] ≡ to_base64_url (77 ∷ 97 ∷ []))
base64_url_example =
    base64_url_lem (77 ∷ 97 ∷ []) (b'T' ∷ b'W' ∷ b'E' ∷ []) (omega arith, (omega arith, tt))
