-- ===== src/Listings.antt =====
-- Statements that are signed after a recording's upload, and are listed on the recordings that they
-- cover: session records (apps/electron-client/src/sessionDelivery.ts), the host's own revocations
-- (apps/electron-client/src/vouchRevocation.ts) and a person's (packages/core/app/deviceRevocation.ts).
pub mod Loop
pub mod Delivered
pub mod Twice
pub mod Revoked
use tapes_monorepo.Base.{
  String, Bool, true, false, not, List, [], ◌∷◌, ◌++◌, Option, none, some, if◌then◌else◌, text_eq,
  nat_eq, ◌==◌, is_some, list_eq, any, includes, Dict, get, set,
}
use tapes_monorepo.BlobStore.{Bytes, Disk, has, ingest_stream}
use tapes_monorepo.ClaimIngest.{statement_options}

-- The `statements` of each recording that has such a list.
abbrev pub Docs : Type 0
Docs = Dict String (List String)

-- `handle.change` with a push
unfoldable pub push_statement : String → String → Docs → Docs
push_statement url address docs = elim (get url docs) [
  | none ↦ docs
  | some statements ↦ set url (statements ++ address ∷ []) docs
]

-- What `find` and `doc` give of a recording: nothing where it does not open in time, or has no list.
abbrev pub open_statements : (String → Bool) → String → Docs → Option (List String)
open_statements opens url docs = if opens url then get url docs else none

-- The loop over the entries of a root document, of which some are no texts. `visit` says whether the
-- recording lists the statement now.
module _ {ℓ} {S : Type ℓ} (visit : String → S → S × Bool) where
  unfoldable pub visit_all : List (Option String) → S → S × List String
  visit_all [] s = (s, [])
  visit_all (none ∷ entries) s = visit_all entries s
  visit_all (some url ∷ entries) s =
      let (next, lists) = visit url s in
      let (after, listed) = visit_all entries next in
      (after, if lists then url ∷ listed else listed)

  -- No result where the root document does not open.
  unfoldable pub visit_root : Option (List (Option String)) → S → S × Option (List String)
  unfolding visit_all
  visit_root root s = elim root [
    | none ↦ (s, none)
    | some entries ↦ let (after, listed) = visit_all entries s in (after, some listed)
  ]

module _ (opens : String → Bool) where
  unfoldable pub visit_for_record : String → List String → String → Docs → Docs × Bool
  unfolding push_statement
  visit_for_record record_hash claims url docs = elim (open_statements opens url docs) [
    | none ↦ (docs, false)
    | some statements ↦
        if not (any (includes claims) statements)
        then (docs, false)
        else if includes statements record_hash
        then (docs, true)
        else (push_statement url record_hash docs, true)
  ]

  unfoldable pub list_session_record :
      String → List String → Option (List (Option String)) → Docs → Docs × Option (List String)
  unfolding visit_root visit_for_record
  list_session_record record_hash claims root docs =
      if claims == []
      then (docs, some [])
      else visit_root (visit_for_record record_hash claims) root docs

  -- The host's store is changed too. `writes` says for which recordings it can be written.
  module _ (sha256 : Bytes → String) (writes : String → Bool) (now : String) (bytes : Bytes)
      (address device_link : String) where
    abbrev pub store_revocation : String → Disk → Disk × Bool
    store_revocation url d =
        let (after, result) = ingest_stream sha256 (bytes ∷ []) (statement_options url) now d in
        if writes url then (after, is_some result) else (d, false)

    unfoldable pub visit_for_revocation : String → Docs × Disk → (Docs × Disk) × Bool
    unfolding push_statement ingest_stream
    visit_for_revocation url (docs, d) =
        let (stored, taken) = store_revocation url d in
        elim (open_statements opens url docs) [
          | none ↦ ((docs, d), false)
          | some statements ↦
              if not (includes statements device_link)
              then ((docs, d), false)
              else if not taken
              then ((docs, stored), false)
              else if includes statements address
              then ((docs, stored), true)
              else ((push_statement url address docs, stored), true)
        ]

    unfoldable pub list_device_revocation :
        Option (List (Option String)) → Docs × Disk → (Docs × Disk) × Option (List String)
    unfolding visit_root visit_for_revocation
    list_device_revocation = visit_root visit_for_revocation

  -- `copy_revocation` uploads the revocation with an address, for a recording, to the hosts, whose
  -- state it changes, and says whether one of them took it.
  module _ {ℓ} {S : Type ℓ} (copy_revocation : String → String → S → S × Bool)
      (device_link : String) where
    unfoldable pub visit_for_device : String → String → Docs × S → (Docs × S) × Bool
    unfolding push_statement
    visit_for_device address url (docs, hosts) =
        let (after, taken) = copy_revocation address url hosts in
        elim (open_statements opens url docs) [
          | none ↦ ((docs, hosts), false)
          | some statements ↦
              if not (includes statements device_link)
              then ((docs, hosts), false)
              else if includes statements address
              then ((docs, hosts), true)
              else if not taken
              then ((docs, after), false)
              else ((push_statement url address docs, after), true)
        ]

    -- `signed` is the address of the revocation that this call signs, or nothing where the signing or
    -- the reading back throws. The result has that address and the recordings that list it now.
    unfoldable pub revoke_device :
        Option String
        → Option (List (Option String))
        → Docs × S
        → (Docs × S) × Option (String × List String)
    unfolding visit_root visit_for_device
    revoke_device none root s = (s, none)
    revoke_device (some address) root s =
        let (after, listed) = visit_root (visit_for_device address) root s in
        (after, elim listed [ none ↦ none | some urls ↦ some (address, urls) ])
