-- ===== src/Passkeys/Fetch.antt =====
-- passkeyRecords.ts: what is stored can be fetched.
use tapes_monorepo.Base.{
  ◌≤◌, String, Bool, false, not, List, [], ◌∷◌, ◌++◌, ◌⊎◌, inl, inr, Option, none, some, ◌≡◌, refl,
  ◌∙◌, arith, eq_iff, leb, text_eq, nat_eq, ◌==◌, ==_refl, Bool-cases, Option-cases, length, filter,
  any,
}
use tapes_monorepo.Roster.{
  StoredPasskeyRecord, RosterEntry, Roster, find_person, put_person, update_person, find_person-key,
}
use tapes_monorepo.Passkeys.{
  max_records_per_person, WriteProblem, PasskeyWrite, owner_of, other_records, store_record,
  find_record, find_in_roster, stored,
}
use tapes_monorepo.Passkeys.Owners.{holders, fresh_holder}

-- What the answer `stored` tells.
store_record-stored :
    (key : String) (new : StoredPasskeyRecord) (roster : Roster)
    → (store_record key new roster roster).1 ≡ stored
    → (person : RosterEntry) × (find_person key roster ≡ some person)
      × ((owner_of new.credential_id roster ≡ none)
          ⊎ ((owner : RosterEntry) × (owner_of new.credential_id roster ≡ some owner)
              × (owner.person_key ≡ key)))
      × ((store_record key new roster roster).0
          ≡ put_person
              (record person {
                passkey_records = other_records new.credential_id person ++ new ∷ [];
              })
              roster)
unfolding store_record update_person
store_record-stored key new roster done = elim (Option-cases (find_person key roster)) [
  | inl absent ↦ elim (Option-cases (owner_of new.credential_id roster)) [
    | inl unowned ↦ absurd (ground (arith, absent, unowned, done))
    | inr (owner, owned) ↦ absurd (ground (arith, absent, owned, done))
  ]
  | inr (person, known) ↦
      elim (Bool-cases
        (leb max_records_per_person (length (other_records new.credential_id person)))) [
          | inl full ↦ elim (Option-cases (owner_of new.credential_id roster)) [
            | inl unowned ↦ absurd (ground (arith, known, full, unowned, done))
            | inr (owner, owned) ↦ absurd (ground (arith, known, full, owned, done))
          ]
          | inr room ↦ elim (Option-cases (owner_of new.credential_id roster)) [
            | inl unowned ↦ (person, known, inl unowned, ground (arith, known, unowned, room))
            | inr (owner, owned) ↦ elim (Bool-cases (owner.person_key == key)) [
              | inl same ↦ (
                person,
                known,
                inr (owner, owned, ground (arith, same, eq_iff owner.person_key key)),
                ground (arith, known, owned, same, room),
              )
              | inr differs ↦ absurd (ground (arith, owned, differs, done))
            ]
          ]
        ]
]

module _ (check_write : String → String → WriteProblem ⊎ PasskeyWrite)
    (opens : String → PasskeyWrite → Bool) (sha256 : String → String) where
  abbrev find_one : String → String → List StoredPasskeyRecord → Option String
  find_one = find_record check_write opens sha256

  abbrev pub fetched_record : String → String → Roster → Option String
  fetched_record = find_in_roster check_write opens sha256

  find_record-absent :
      (credential_id token : String) (records : List StoredPasskeyRecord)
      → any (λ held. held.credential_id == credential_id) records ≡ false
      → find_one credential_id token records ≡ none
  unfolding find_record
  find_record-absent credential_id token [] absent = refl
  find_record-absent credential_id token (r ∷ rs) absent =
      ground (arith, absent, find_record-absent credential_id token rs)

  find_record-added :
      (token : String) (new : StoredPasskeyRecord) (records : List StoredPasskeyRecord)
      → new.token_hash ≡ sha256 token
      → find_one new.credential_id token
          (filter (λ held. not (held.credential_id == new.credential_id)) records ++ new ∷ [])
        ≡ some new.stored_record
  unfolding find_record
  find_record-added token new [] hashed =
      ground (arith, hashed, ==_refl new.credential_id, ==_refl (sha256 token))
  find_record-added token new (r ∷ rs) hashed =
      ground (arith, hashed, find_record-added token new rs)

  find_in_roster-others :
      (credential_id token : String) (others : Roster) (person : RosterEntry)
      → holders credential_id others ≡ 0
      → fetched_record credential_id token (others ++ person ∷ [])
        ≡ find_one credential_id token person.passkey_records
  unfolding find_in_roster
  find_in_roster-others credential_id token [] person nobody =
      elim (Option-cases (find_one credential_id token person.passkey_records)) [
        | inl absent ↦ ground (arith, absent)
        | inr (text, found) ↦ ground (arith, found)
      ]
  find_in_roster-others credential_id token (p ∷ ps) person nobody = ground (
    arith,
    nobody,
    find_in_roster-others credential_id token ps person,
    find_record-absent credential_id token p.passkey_records,
  )

  fetched_record-put :
      (key token : String) (new : StoredPasskeyRecord) (roster : Roster) (person : RosterEntry)
      → find_person key roster ≡ some person
      → holders new.credential_id roster ≤ 1
      → ((owner_of new.credential_id roster ≡ none)
          ⊎ ((owner : RosterEntry) × (owner_of new.credential_id roster ≡ some owner)
              × (owner.person_key ≡ key)))
      → new.token_hash ≡ sha256 token
      → fetched_record new.credential_id token (
          put_person
            (record person { passkey_records = other_records new.credential_id person ++ new ∷ [] })
            roster)
        ≡ some new.stored_record
  unfolding put_person
  fetched_record-put key token new roster person known few free hashed =
      let written : RosterEntry = record person {
        passkey_records = other_records new.credential_id person ++ new ∷ [];
      } in
      let others = filter (λ each. not (each.person_key == person.person_key)) roster in
      let keyed = find_person-key key roster person known in
      let nobody : holders new.credential_id others ≡ 0 =
        rw keyed (fresh_holder key new roster person few free) in
      find_in_roster-others new.credential_id token others written nobody
      ∙ find_record-added token new person.passkey_records hashed

  -- A record that is stored is fetched again with its credential id and the token that it was stored
  -- with, whatever else its person and the others keep, if at most one person held the credential id
  -- before and the roster has not changed since the owner was looked for.
  pub find_in_roster-store_record :
      (key token : String) (new : StoredPasskeyRecord) (roster : Roster)
      → holders new.credential_id roster ≤ 1
      → new.token_hash ≡ sha256 token
      → (store_record key new roster roster).1 ≡ stored
      → fetched_record new.credential_id token (store_record key new roster roster).0
        ≡ some new.stored_record
  find_in_roster-store_record key token new roster few hashed done =
      let (person, known, free, put) = store_record-stored key new roster done in
      rw put (fetched_record-put key token new roster person known few free hashed)
