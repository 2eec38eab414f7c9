-- ===== src/Vouching/Limits.antt =====
-- hostVouching.ts: how many guesses at a PIN get through.
use tapes_monorepo.Base.{
  ℕ, ◌+◌, ◌-◌, ◌≤◌, max, String, List, [], ◌∷◌, inl, inr, none, some, ◌≡◌, arith, eq_iff,
  if◌then◌else◌, text_eq, nat_eq, ◌==◌, ==_refl, Option-cases, length, filter, keys,
}
use tapes_monorepo.Roster.{
  RosterEntry, Roster, find_person, update_person, find_person-put, find_person-key, hash_pin,
  pin_matches-hash_pin,
}
use tapes_monorepo.Vouching.{max_pin_failures, failures_of, begin_check, pin_ok, changed}
use tapes_monorepo.Vouching.Pins.{check_pin, save_pin, set_pin, pin_outcome, check_pin_lem}

-- Guesses that are all begun before any of them is compared, at any people and in any order. The
-- entries are those whose guess goes on to be compared.
unfoldable pub begin_checks : List String → Roster → Roster × List RosterEntry
unfolding begin_check
begin_checks [] roster = (roster, [])
begin_checks (key ∷ keys) roster =
    let (counted_roster, counted) = begin_check key roster in
    let (after, entries) = begin_checks keys counted_roster in
    (after, elim counted [ none ↦ entries | some e ↦ e ∷ entries ])

abbrev pub failures_at : String → Roster → ℕ
failures_at key roster = elim (find_person key roster) [ none ↦ 0 | some e ↦ failures_of e ]

abbrev pub guesses_at : String → List RosterEntry → ℕ
guesses_at key entries = length (filter (λ e. e.person_key == key) entries)

-- A guess that goes through is counted, and there is room for it.
begin_check-counts :
    (key target : String) (roster : Roster)
    → let (after, counted) = begin_check key roster in
      failures_at target after
      ≡ failures_at target roster
        + elim counted [ none ↦ 0 | some e ↦ if e.person_key == target then 1 else 0 ]
unfolding begin_check update_person
begin_check-counts key target roster = elim (Option-cases (find_person key roster)) [
  | inl absent ↦ ground (arith, absent)
  | inr (e, known) ↦
      let bumped : RosterEntry = record e { pin_failures = some (failures_of e + 1) } in
      ground (
        arith,
        known,
        find_person-key key roster e known,
        eq_iff key target,
        find_person-put target bumped roster,
      )
]

begin_check-room :
    (key target : String) (roster : Roster)
    → failures_at target (begin_check key roster).0
      ≤ max max_pin_failures (failures_at target roster)
unfolding begin_check update_person
begin_check-room key target roster = elim (Option-cases (find_person key roster)) [
  | inl absent ↦ ground (arith, absent)
  | inr (e, known) ↦
      let bumped : RosterEntry = record e { pin_failures = some (failures_of e + 1) } in
      ground (
        arith,
        known,
        find_person-key key roster e known,
        eq_iff key target,
        find_person-put target bumped roster,
      )
]

begin_checks-failures :
    (keys : List String) (target : String) (roster : Roster)
    → let (after, entries) = begin_checks keys roster in
      (failures_at target after ≡ failures_at target roster + guesses_at target entries)
      × (failures_at target after ≤ max max_pin_failures (failures_at target roster))
unfolding begin_checks
begin_checks-failures [] target roster = (omega arith, omega arith)
begin_checks-failures (key ∷ keys) target roster =
    let rest = begin_checks-failures keys target (begin_check key roster).0 in
    (
      ground (arith, rest.0, begin_check-counts key target roster),
      ground (arith, rest.1, begin_check-room key target roster),
    )

-- Of any number of guesses that are begun before one is compared, at whatever people, at most as
-- many are compared with one person's PIN as five exceeds that person's wrong guesses so far.
pub guesses_bounded :
    (keys : List String) (target : String) (roster : Roster)
    → guesses_at target (begin_checks keys roster).1 ≤ max_pin_failures - failures_at target roster
guesses_bounded keys target roster = omega (arith, begin_checks-failures keys target roster)

-- `derive` is PBKDF2.
module _ (derive : String → String → ℕ → String) where
  -- A PIN that the operator could set is the one that is accepted from then on, though the person
  -- was locked out before.
  pub set_pin-check_pin :
      (salt key pin : String) (roster after : Roster)
      → set_pin derive salt key (some pin) roster ≡ (after, changed)
      → (check_pin derive key pin after).1 ≡ pin_ok
  unfolding set_pin save_pin update_person pin_outcome
  set_pin-check_pin salt key pin roster after done =
      let fresh : RosterEntry → RosterEntry =
        λ e. record e { pin = some (hash_pin derive salt pin); pin_failures = none } in
      elim (Option-cases (find_person key roster)) [
        | inl absent ↦ absurd (ground (arith, absent, done))
        | inr (e, known) ↦ ground (
          arith,
          known,
          done,
          find_person-key key roster e known,
          ==_refl key,
          find_person-put key (fresh e) roster,
          check_pin_lem derive key key pin after,
          pin_matches-hash_pin derive salt pin,
        )
      ]
