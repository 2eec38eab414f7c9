-- ===== src/Tests/Listed.antt =====
-- sessionDelivery.ts, vouchRevocation.ts and deviceRevocation.ts on two recordings.
use tapes_monorepo.Base.{
  ℕ, ◌+◌, String, Bool, true, List, [], ◌∷◌, Option, none, some, ◌≡◌, refl, text_eq, nat_eq,
  or_else, list_eq, All, get, set,
}
use tapes_monorepo.BlobStore.{empty_disk}
use tapes_monorepo.Listings.{Docs, list_session_record, list_device_revocation, revoke_device}
use tapes_monorepo.Listings.Delivered.{lists, is_delivered, list_device_revocation_lem}
use tapes_monorepo.Listings.Twice.{are_listed, is_covered, list_session_record_lem}
use tapes_monorepo.Listings.Revoked.{has_link, revoke_device_lem}
use tapes_monorepo.Tests.Blobs.{second_name, hash_of, names_are_valid}

abbrev takes_docs : Docs
takes_docs = ("one", "claim" ∷ "link" ∷ []) ∷ ("two", "else" ∷ []) ∷ []

abbrev entries : List (Option String)
entries = some "one" ∷ none ∷ some "two" ∷ some "one" ∷ some "gone" ∷ []

abbrev always : String → Bool
always url = true

list_session_record_example :
    let (after, listed) =
      list_session_record always "record" ("claim" ∷ []) (some entries) takes_docs in
    (are_listed always (is_covered always "record" ("claim" ∷ [])) "record" entries after ≡ true)
    × (list_session_record always "record" ("claim" ∷ []) (some entries) after ≡ (after, listed))
list_session_record_example =
    list_session_record_lem always "record" ("claim" ∷ []) entries takes_docs

record_is_listed : list_session_record always "record" ("claim" ∷ []) (some entries) takes_docs ≡ (
  ("one", "claim" ∷ "link" ∷ "record" ∷ []) ∷ ("two", "else" ∷ []) ∷ [],
  some ("one" ∷ "one" ∷ []),
)
unfolding list_session_record get set
record_is_listed = refl

abbrev count_upload : String → String → ℕ → ℕ × Bool
count_upload address url n = (n + 1, true)

revoke_device_example :
    let (after, result) =
      revoke_device always count_upload "link" (some "revocation") (some entries) (takes_docs, 0) in
    (are_listed always (has_link "link") "revocation" entries after.0 ≡ true)
    × ((urls : List String) × (result ≡ some ("revocation", urls))
        × All (λ url. lists url "revocation" after.0 ≡ true) urls)
    × ((url statement : String)
        → lists url statement takes_docs ≡ true
        → lists url statement after.0 ≡ true)
revoke_device_example =
    revoke_device_lem always count_upload "link" "revocation" (λ url n. refl) entries takes_docs 0

-- The next call signs another revocation, which is uploaded and listed beside the first.
revoked_twice :
    let first =
      revoke_device always count_upload "link" (some "revocation") (some entries) (takes_docs, 0) in
    (revoke_device always count_upload "link" (some "second") (some entries) first.0).0
    ≡ (("one", "claim" ∷ "link" ∷ "revocation" ∷ "second" ∷ []) ∷ ("two", "else" ∷ []) ∷ [], 2)
unfolding revoke_device get set
revoked_twice = refl

list_device_revocation_example :
    let (after, listed) =
      list_device_revocation always hash_of always "now"
        (7 ∷ [])
        second_name
        "link"
        (some entries)
        (takes_docs, empty_disk) in
    All
      (λ url.
        is_delivered hash_of names_are_valid always always "now"
          (7 ∷ [])
          second_name
          "link"
          url
          after
        ≡ true)
      (or_else listed [])
list_device_revocation_example =
    list_device_revocation_lem hash_of names_are_valid always always "now" (7 ∷ []) second_name
      "link" entries takes_docs empty_disk
