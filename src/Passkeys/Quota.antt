-- ===== src/Passkeys/Quota.antt =====
-- passkeyRecords.ts: how many records a person has, and writes that are refused.
use tapes_monorepo.Base.{
  ◌≤◌, String, false, not, [], ◌∷◌, ◌++◌, ◌≢◌, ◌⊎◌, inl, inr, some, ◌≡◌, sym, subst, arith, eq_iff,
  leb, text_eq, nat_eq, ◌==◌, Bool-cases, Option-cases, length, length-append, filter, All,
  All-append, All-filter,
}
use tapes_monorepo.Roster.{
  StoredPasskeyRecord, RosterEntry, Roster, find_person, put_person, update_person,
}
use tapes_monorepo.Passkeys.{
  max_records_per_person, owner_of, other_records, store_record, not_yours,
}

-- Nobody has more records than the quota.
abbrev pub WithinQuota : Roster → Type 0
WithinQuota = All (λ person. length person.passkey_records ≤ max_records_per_person)

quota-filter :
    (key : String) (roster : Roster)
    → WithinQuota roster
    → WithinQuota (filter (λ each. not (each.person_key == key)) roster)
quota-filter key roster h =
    All-filter (λ person. length person.passkey_records ≤ max_records_per_person)
      (λ each. not (each.person_key == key)) roster h

pub store_record_cases :
    (key : String) (new : StoredPasskeyRecord) (listed roster : Roster)
    → ((store_record key new listed roster).0 ≡ roster)
      ⊎ ((person : RosterEntry) × (find_person key roster ≡ some person)
          × (leb max_records_per_person (length (other_records new.credential_id person)) ≡ false)
          × ((store_record key new listed roster).0
              ≡ put_person
                  (record person {
                    passkey_records = other_records new.credential_id person ++ new ∷ [];
                  })
                  roster))
unfolding store_record update_person
store_record_cases key new listed roster = elim (Option-cases (find_person key roster)) [
  | inl absent ↦ inl (ground (arith, absent))
  | inr (person, known) ↦ elim (Option-cases (owner_of new.credential_id listed)) [
    | inl unowned ↦
        elim (Bool-cases
          (leb max_records_per_person (length (other_records new.credential_id person)))) [
            | inl full ↦ inl (ground (arith, known, unowned, full))
            | inr room ↦ inr (person, known, room, ground (arith, known, unowned, room))
          ]
    | inr (owner, owned) ↦ elim (Bool-cases (owner.person_key == key)) [
      | inr differs ↦ inl (ground (arith, known, owned, differs))
      | inl same ↦
          elim (Bool-cases
            (leb max_records_per_person (length (other_records new.credential_id person)))) [
              | inl full ↦ inl (ground (arith, known, owned, same, full))
              | inr room ↦ inr (person, known, room, ground (arith, known, owned, same, room))
            ]
    ]
  ]
]

-- A write keeps every person within five records, whatever it is answered.
pub store_record-WithinQuota :
    (key : String) (new : StoredPasskeyRecord) (listed roster : Roster)
    → WithinQuota roster
    → WithinQuota (store_record key new listed roster).0
unfolding put_person
store_record-WithinQuota key new listed roster h = elim (store_record_cases key new listed roster) [
  | inl same ↦ subst WithinQuota (sym same) h
  | inr (person, known, room, put) ↦
      let kept = other_records new.credential_id person in
      subst WithinQuota (sym put) (
        All-append (λ p. length p.passkey_records ≤ max_records_per_person)
          (filter (λ each. not (each.person_key == person.person_key)) roster)
          (record person { passkey_records = kept ++ new ∷ [] } ∷ [])
          (quota-filter person.person_key roster h)
          (ground (arith, room, length-append kept (new ∷ [])), tt))
]

-- A write under a credential id that someone else is listed with is refused, and changes nothing.
pub store_record-not_yours :
    (key : String) (new : StoredPasskeyRecord) (listed roster : Roster) (owner : RosterEntry)
    → owner_of new.credential_id listed ≡ some owner
    → owner.person_key ≢ key
    → store_record key new listed roster ≡ (roster, not_yours)
unfolding store_record
store_record-not_yours key new listed roster owner held differs =
    ground (arith, held, differs, eq_iff owner.person_key key)
