-- ===== src/Passkeys/Owners.antt =====
-- passkeyRecords.ts: a credential id has one holder.
use tapes_monorepo.Base.{
  ℕ, ◌+◌, ◌≤◌, String, not, List, [], ◌∷◌, ◌++◌, ◌≢◌, ◌⊎◌, inl, inr, none, some, ◌≡◌, refl, ◌∙◌,
  arith, eq_iff, text_eq, nat_eq, ◌==◌, Bool-cases, Option-cases, indicator, length, filter, any,
  length-filter-le, any-append,
}
use tapes_monorepo.Roster.{
  StoredPasskeyRecord, RosterEntry, Roster, find_person, put_person, find_person-key,
}
use tapes_monorepo.Passkeys.{holds, owner_of, other_records, store_record}
use tapes_monorepo.Passkeys.Quota.{store_record_cases, store_record-not_yours}

-- How many people hold a record under the credential id.
abbrev pub holders : String → Roster → ℕ
holders credential_id roster = length (filter (holds credential_id) roster)

holders-filter :
    (key credential_id : String) (roster : Roster)
    → holders credential_id (filter (λ each. not (each.person_key == key)) roster)
      ≤ holders credential_id roster
holders-filter key credential_id [] = omega arith
holders-filter key credential_id (p ∷ ps) = ground (arith, holders-filter key credential_id ps)

holders-owner :
    (key credential_id : String) (roster : Roster) (owner : RosterEntry)
    → owner_of credential_id roster ≡ some owner
    → owner.person_key ≡ key
    → holders credential_id (filter (λ each. not (each.person_key == key)) roster) + 1
      ≤ holders credential_id roster
holders-owner key credential_id [] owner held same = absurd (ground (arith, held))
holders-owner key credential_id (p ∷ ps) owner held same = ground (
  arith,
  held,
  same,
  holders-owner key credential_id ps owner,
  holders-filter key credential_id ps,
  eq_iff p.person_key key,
)

any-other :
    (credential_id new_id : String) (records : List StoredPasskeyRecord)
    → credential_id ≢ new_id
    → any
        (λ held. held.credential_id == credential_id)
        (filter (λ held. not (held.credential_id == new_id)) records)
      ≡ any (λ held. held.credential_id == credential_id) records
any-other credential_id new_id [] differ = refl
any-other credential_id new_id (r ∷ rs) differ = ground (
  arith,
  differ,
  any-other credential_id new_id rs,
  eq_iff r.credential_id credential_id,
  eq_iff r.credential_id new_id,
)

holders-without :
    (key credential_id : String) (roster : Roster) (person : RosterEntry)
    → find_person key roster ≡ some person
    → holders credential_id (filter (λ each. not (each.person_key == key)) roster)
        + indicator (holds credential_id person)
      ≤ holders credential_id roster
unfolding find_person
holders-without key credential_id [] person known = absurd (ground (arith, known))
holders-without key credential_id (p ∷ ps) person known = ground (
  arith,
  known,
  holders-without key credential_id ps person,
  length-filter-le (λ each. not (each.person_key == key)) ps,
  holders-filter key credential_id ps,
)

holders-none :
    (credential_id : String) (roster : Roster)
    → owner_of credential_id roster ≡ none
    → holders credential_id roster ≡ 0
holders-none credential_id [] h = refl
holders-none credential_id (p ∷ ps) h = ground (arith, h, holders-none credential_id ps)

holders-append :
    (credential_id : String) (xs ys : Roster)
    → holders credential_id (xs ++ ys) ≡ holders credential_id xs + holders credential_id ys
holders-append credential_id [] ys = omega arith
holders-append credential_id (x ∷ xs) ys = ground (arith, holders-append credential_id xs ys)

-- What the write adds is held by nobody else.
pub fresh_holder :
    (key : String) (new : StoredPasskeyRecord) (roster : Roster) (person : RosterEntry)
    → holders new.credential_id roster ≤ 1
    → ((owner_of new.credential_id roster ≡ none)
        ⊎ ((owner : RosterEntry) × (owner_of new.credential_id roster ≡ some owner)
            × (owner.person_key ≡ key)))
    → holders new.credential_id (filter (λ each. not (each.person_key == key)) roster) ≡ 0
fresh_holder key new roster person few (inl unowned) = omega (
  arith,
  holders-none new.credential_id roster unowned,
  holders-filter key new.credential_id roster,
)
fresh_holder key new roster person few (inr (owner, held, same)) =
    omega (arith, few, holders-owner key new.credential_id roster owner held same)

put-holders :
    (credential_id key : String) (new : StoredPasskeyRecord) (roster : Roster)
    (person : RosterEntry)
    → find_person key roster ≡ some person
    → ((owner_of new.credential_id roster ≡ none)
        ⊎ ((owner : RosterEntry) × (owner_of new.credential_id roster ≡ some owner)
            × (owner.person_key ≡ key)))
    → holders credential_id roster ≤ 1
    → holders credential_id (
        put_person
          (record person { passkey_records = other_records new.credential_id person ++ new ∷ [] })
          roster)
      ≤ 1
unfolding put_person
put-holders credential_id key new roster person known free few =
    let written : RosterEntry = record person {
      passkey_records = other_records new.credential_id person ++ new ∷ [];
    } in
    let others = filter (λ each. not (each.person_key == person.person_key)) roster in
    let keyed = find_person-key key roster person known in
    let total = holders-append credential_id others (written ∷ []) in
    elim (Bool-cases (credential_id == new.credential_id)) [
      | inl same ↦
          let alone : holders new.credential_id roster ≤ 1 =
            ground (arith, same, few, eq_iff credential_id new.credential_id) in
          ground (
            arith,
            same,
            total,
            keyed,
            eq_iff credential_id new.credential_id,
            fresh_holder key new roster person alone free,
          )
      | inr differs ↦ ground (
        arith,
        differs,
        few,
        total,
        keyed,
        eq_iff credential_id new.credential_id,
        eq_iff new.credential_id credential_id,
        any-append (λ held. held.credential_id == credential_id)
            (other_records new.credential_id person) (new ∷ []),
        any-other credential_id new.credential_id person.passkey_records,
        holders-without key credential_id roster person known,
      )
    ]

-- A credential id that at most one person holds is held by at most one after a write, where the owner
-- that the check found in the listed roster, or that it found none, still stands when the write runs.
pub store_record-holders :
    (credential_id key : String) (new : StoredPasskeyRecord) (listed roster : Roster)
    → owner_of new.credential_id listed ≡ owner_of new.credential_id roster
    → holders credential_id roster ≤ 1
    → holders credential_id (store_record key new listed roster).0 ≤ 1
store_record-holders credential_id key new listed roster stands few =
    elim (store_record_cases key new listed roster) [
      | inl same ↦ rw same few
      | inr (person, known, room, put) ↦ elim (Option-cases (owner_of new.credential_id roster)) [
        | inl unowned ↦
            rw put (put-holders credential_id key new roster person known (inl unowned) few)
        | inr (owner, held) ↦ elim (Bool-cases (owner.person_key == key)) [
          | inl own ↦ rw put (
              put-holders credential_id key new roster person known
                (inr (owner, held, ground (arith, own, eq_iff owner.person_key key))) few)
          | inr other_key ↦
              rw
                (store_record-not_yours key new listed roster owner (stands ∙ held)
                  (λ e. ground (arith, e, other_key, eq_iff owner.person_key key)))
                few
        ]
      ]
    ]
