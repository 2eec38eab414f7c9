-- ===== src/Passkeys.antt =====
-- The passkey records that a host keeps for people (apps/electron-client/src/passkeyRecords.ts,
-- packages/sync-protocol/lib).
pub mod Quota
pub mod Owners
pub mod Fetch
use tapes_monorepo.Base.{
  ℕ, ◌+◌, String, Bool, true, false, not, ◌&&◌, List, [], ◌∷◌, ◌++◌, ◌⊎◌, inl, inr, Option, none,
  some, if◌then◌else◌, ltb, leb, text_eq, nat_eq, ◌==◌, length, filter, any, find, Dict, get, set,
}
use tapes_monorepo.Roster.{StoredPasskeyRecord, RosterEntry, Roster, find_person, update_person}
use tapes_monorepo.Challenges.{ChallengeStore, consume}

abbrev pub max_fetches_per_window : ℕ
max_fetches_per_window = 10

abbrev pub fetch_window_ms : ℕ
fetch_window_ms = 60_000

abbrev pub max_records_per_person : ℕ
max_records_per_person = 5

pub data WriteProblem : Type 0 where
  malformed_write bad_signature_write wrong_record : WriteProblem

-- The payload of a write whose checks passed.
pub record PasskeyWrite : Type 0 where
  pub person_key : String
  pub credential_id : String
  pub challenge : String

pub data PutResult : Type 0 where
  stored : PutResult
  bad_write : WriteProblem → PutResult
  bad_record stale_challenge not_yours too_many_records not_on_roster : PutResult

pub record FetchWindow : Type 0 where
  pub count : ℕ
  pub until : ℕ

abbrev pub holds : String → RosterEntry → Bool
holds credential_id person =
    any (λ held. held.credential_id == credential_id) person.passkey_records

-- the owner of a credential id: the first who stored one under it
abbrev pub owner_of : String → Roster → Option RosterEntry
owner_of credential_id = find (holds credential_id)

abbrev pub other_records : String → RosterEntry → List StoredPasskeyRecord
other_records credential_id person =
    filter (λ held. not (held.credential_id == credential_id)) person.passkey_records

-- the change of `put`'s write
abbrev pub add_record : StoredPasskeyRecord → RosterEntry → Option RosterEntry
add_record new person =
    if leb max_records_per_person (length (other_records new.credential_id person))
    then none
    else some
        (record person { passkey_records = other_records new.credential_id person ++ new ∷ [] })

-- the answer to what the write came to
abbrev put_answer : StoredPasskeyRecord → Option RosterEntry → PutResult
put_answer new none = not_on_roster
put_answer new (some person) =
    if leb max_records_per_person (length (other_records new.credential_id person))
    then too_many_records
    else stored

-- The end of `put`, behind the checks of the write and of the record. The owner is looked for in the
-- roster as it was listed, and the write, which waits its turn, changes the roster as it is by then.
unfoldable pub store_record : String → StoredPasskeyRecord → Roster → Roster → Roster × PutResult
store_record person_key new listed roster =
    let after : Roster × PutResult = (
      (update_person person_key (add_record new) roster).0,
      put_answer new (find_person person_key roster),
    ) in
    elim (owner_of new.credential_id listed) [
      | none ↦ after
      | some owner ↦ if owner.person_key == person_key then after else (roster, not_yours)
    ]

-- `check_write` is `checkPasskeyRecordWrite` on the decoded write, and `opens` says that the record
-- is a passkey record for the credential id, of the person key. `sha256` hashes a token.
module _ (check_write : String → String → WriteProblem ⊎ PasskeyWrite)
    (opens : String → PasskeyWrite → Bool) (sha256 : String → String) where
  unfoldable pub put_record :
      ℕ
      → String
      → String
      → String
      → String
      → ℕ
      → Roster
      → Roster × ChallengeStore
      → (Roster × ChallengeStore) × PutResult
  unfolding consume store_record
  put_record ttl_ms encoded text token stamp now listed (roster, challenges) =
      elim (check_write encoded text) [
        | inl problem ↦ ((roster, challenges), bad_write problem)
        | inr w ↦
            if not (opens text w)
            then ((roster, challenges), bad_record)
            else let (left, fresh) = consume ttl_ms w.challenge now challenges in
              let new : StoredPasskeyRecord = record {
                credential_id = w.credential_id;
                token_hash = sha256 token;
                stored_record = text;
                stored_at = stamp;
              } in
              let (after, result) = store_record w.person_key new listed roster in
              if not fresh then ((roster, left), stale_challenge) else ((after, left), result)
      ]

  -- the loop of `fetch` over one person's records, and over the people
  unfoldable pub find_record : String → String → List StoredPasskeyRecord → Option String
  find_record credential_id token [] = none
  find_record credential_id token (held ∷ records) =
      let rest = find_record credential_id token records in
      if held.credential_id == credential_id && held.token_hash == sha256 token
      then some held.stored_record
      else rest

  unfoldable pub find_in_roster : String → String → Roster → Option String
  unfolding find_record
  find_in_roster credential_id token [] = none
  find_in_roster credential_id token (person ∷ people) =
      let rest = find_in_roster credential_id token people in
      elim (find_record credential_id token person.passkey_records) [
        | none ↦ rest
        | some text ↦ some text
      ]

abbrev is_over : ℕ → String × FetchWindow → Bool
is_over now (credential_id, window) = leb window.until now

-- `throttled`: true where the fetch is refused
unfoldable pub throttled : String → ℕ → Dict String FetchWindow → Dict String FetchWindow × Bool
throttled credential_id now fetches =
    let opened =
      filter (λ entry. not (is_over now entry))
        (set credential_id (record { count = 1; until = now + fetch_window_ms }) fetches) in
    elim (get credential_id fetches) [
      | none ↦ (opened, false)
      | some window ↦ if leb window.until now then (opened, false) else (
        set credential_id (record window { count = window.count + 1 }) fetches,
        ltb max_fetches_per_window (window.count + 1),
      )
    ]
