-- ===== src/BlobStore/Owners.antt =====
-- What blobStore.ts keeps, seen as a record of who owns what.
use tapes_monorepo.Base.{
  String, Bool, not, ◌&&◌, List, [], ◌∷◌, ◌++◌, append-nil, ◌≡◌, refl, arith, eq_iff, if◌then◌else◌,
  ltb, text_eq, nat_eq, ◌==◌, length, filter, any, includes, add,
}

-- The abstract view: which document owns what, in the order in which they came to own it.
abbrev pub Library : Type 0
Library = List (String × String)

abbrev pub is_pair : String → String → String × String → Bool
is_pair hash doc_url (h, d) = h == hash && d == doc_url

abbrev pub owners_of : String → Library → List String
owners_of hash [] = []
owners_of hash ((h, d) ∷ library) =
    let rest = owners_of hash library in if h == hash then d ∷ rest else rest

abbrev pub is_owned : String → Library → Bool
is_owned hash library = ltb 0 (length (owners_of hash library))

abbrev pub own : String → String → Library → Library
own hash doc_url library =
    if any (is_pair hash doc_url) library then library else library ++ (hash, doc_url) ∷ []

abbrev pub disown : String → String → Library → Library
disown hash doc_url library = filter (λ pair. not (is_pair hash doc_url pair)) library

pub owners-append :
    (hash : String) (xs ys : Library)
    → owners_of hash (xs ++ ys) ≡ owners_of hash xs ++ owners_of hash ys
owners-append hash [] ys = refl
owners-append hash (x ∷ xs) ys = ground (arith, owners-append hash xs ys)

pub owners-disown :
    (hash other doc_url : String) (library : Library)
    → owners_of other (disown hash doc_url library) ≡ (
        if hash == other
        then filter (λ each. not (each == doc_url)) (owners_of other library)
        else owners_of other library)
owners-disown hash other doc_url [] = ground arith
owners-disown hash other doc_url ((h, d) ∷ library) = ground (
  arith,
  owners-disown hash other doc_url library,
  eq_iff h other,
  eq_iff h hash,
  eq_iff hash other,
)

pub any-is_pair :
    (hash doc_url : String) (library : Library)
    → any (is_pair hash doc_url) library ≡ includes (owners_of hash library) doc_url
any-is_pair hash doc_url [] = refl
any-is_pair hash doc_url ((h, d) ∷ library) = ground (arith, any-is_pair hash doc_url library)

pub owners-own :
    (hash other doc_url : String) (library : Library)
    → owners_of other (own hash doc_url library)
      ≡ (if hash == other then add (owners_of other library) doc_url else owners_of other library)
owners-own hash other doc_url library = ground (
  arith,
  any-is_pair hash doc_url library,
  owners-append other library ((hash, doc_url) ∷ []),
  append-nil (owners_of other library),
  eq_iff hash other,
)
