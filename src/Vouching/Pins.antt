-- ===== src/Vouching/Pins.antt =====
-- hostVouching.ts: PINs, and the vouches that an operator or a PIN brings about.
use tapes_monorepo.Base.{
  ℕ, ◌+◌, ◌-◌, String, Bool, true, false, not, ◌≢◌, inl, inr, Option, none, some, ◌≡◌, arith,
  eq_iff, if◌then◌else◌, leb, text_eq, nat_eq, ==_refl, Option-cases, is_some,
}
use tapes_monorepo.Roster.{
  PinHash, RosterEntry, Roster, find_person, put_person, update_person, find_person-put,
  find_person-key, is_valid_pin, hash_pin, pin_matches,
}
use tapes_monorepo.Vouching.{
  max_pin_failures, PinCheck, PinChangeResult, failures_of, is_locked, begin_check, pin_ok,
  wrong_pin, locked, no_pin, changed, change_refused, no_person, bad_pin,
}

abbrev pub is_pin_ok : PinCheck → Bool
is_pin_ok result = elim result [ pin_ok ↦ true | _ ↦ false ]

-- `derive` is PBKDF2 (`pinHash.ts`).
module _ (derive : String → String → ℕ → String) where
  -- The rest of `checkPin`, with the entry that `begin_check` wrote.
  unfoldable pub finish_check : String → String → Option RosterEntry → Roster → Roster × PinCheck
  finish_check key guess counted roster = elim counted [
    | none ↦ (
      roster,
      elim (find_person key roster) [
        | none ↦ no_pin
        | some person ↦ if is_some person.pin then locked else no_pin
      ],
    )
    | some e ↦ elim e.pin [
      | none ↦ (
        roster,
        elim (find_person key roster) [
          | none ↦ no_pin
          | some person ↦ if is_some person.pin then locked else no_pin
        ],
      )
      | some hash ↦
          if pin_matches derive guess hash
          then (
            (update_person key (λ saved. some (record saved { pin_failures = none })) roster).0,
            pin_ok,
          )
          else (
            roster,
            if is_locked e then locked else wrong_pin (max_pin_failures - failures_of e),
          )
    ]
  ]

  unfoldable pub check_pin : String → String → Roster → Roster × PinCheck
  unfolding begin_check finish_check
  check_pin key guess roster =
      let (counted_roster, counted) = begin_check key roster in
      finish_check key guess counted counted_roster

  -- `savePin`, with the salt that is drawn
  unfoldable pub save_pin : String → String → Option String → Roster → Roster × Bool
  save_pin salt key pin roster =
      let hash : Option PinHash = elim pin [
        | none ↦ none
        | some p ↦ some (hash_pin derive salt p)
      ] in
      let (next, saved) =
        update_person key (λ e. some (record e { pin = hash; pin_failures = none })) roster in
      (next, is_some saved)

  abbrev is_allowed : Option String → Bool
  is_allowed none = true
  is_allowed (some p) = is_valid_pin p

  -- `setPin`; no PIN is `null`
  unfoldable pub set_pin : String → String → Option String → Roster → Roster × PinChangeResult
  unfolding save_pin
  set_pin salt key pin roster =
      if not (is_allowed pin)
      then (roster, bad_pin)
      else let (next, saved) = save_pin salt key pin roster in
        (next, if saved then changed else no_person)

  -- `changePin`
  unfoldable pub change_pin :
      String → String → String → Option String → Roster → Roster × PinChangeResult
  unfolding check_pin save_pin
  change_pin salt key old pin roster =
      if not (is_allowed pin) then (roster, bad_pin) else elim (find_person key roster) [
        | none ↦ (roster, no_person)
        | some person ↦
            let (checked, result) = check_pin key old roster in
            let (next, saved) = save_pin salt key pin checked in
            if is_pin_ok result
            then (next, if saved then changed else no_person)
            else (checked, change_refused result)
      ]

  -- What a check comes to, by the person's entry before it.
  unfoldable pub pin_outcome : String → Option RosterEntry → Option RosterEntry × PinCheck
  pin_outcome guess none = (none, no_pin)
  pin_outcome guess (some e) = elim e.pin [
    | none ↦ (some e, no_pin)
    | some hash ↦
        if is_locked e
        then (some e, locked)
        else if pin_matches derive guess hash
        then (some (record e { pin_failures = none }), pin_ok)
        else (
          some (record e { pin_failures = some (failures_of e + 1) }),
          if leb max_pin_failures (failures_of e + 1)
              then locked
              else wrong_pin (max_pin_failures - (failures_of e + 1)),
        )
  ]

  -- A check changes the entry of the person that it is about, and answers, as `pin_outcome` says: a
  -- person who is not known or has no PIN is refused; after five wrong guesses any PIN is refused and
  -- nothing changes; the right PIN clears the count; a wrong one adds to it and is told how many
  -- guesses are left. Nobody else's entry changes.
  pub check_pin_lem :
      (key bystander guess : String) (roster : Roster)
      → let (after, result) = check_pin key guess roster in
        let outcome = pin_outcome guess (find_person key roster) in
        (find_person key after ≡ outcome.0)
        × (result ≡ outcome.1)
        × (key ≢ bystander → find_person bystander after ≡ find_person bystander roster)
  unfolding check_pin begin_check finish_check update_person pin_outcome
  check_pin_lem key bystander guess roster = elim (Option-cases (find_person key roster)) [
    | inl absent ↦
        (ground (arith, absent), ground (arith, absent), λ differ. ground (arith, absent))
    | inr (e, known) ↦
        let bumped : RosterEntry = record e { pin_failures = some (failures_of e + 1) } in
        let cleared : RosterEntry = record e { pin_failures = none } in
        let once = put_person bumped roster in
        let keyed = find_person-key key roster e known in
        (
          ground (
            arith,
            known,
            keyed,
            ==_refl key,
            find_person-put key bumped roster,
            find_person-put key cleared once,
          ),
          ground (arith, known, keyed, ==_refl key, find_person-put key bumped roster),
          λ differ. ground (
            arith,
            known,
            keyed,
            differ,
            eq_iff key bystander,
            ==_refl key,
            find_person-put key bumped roster,
            find_person-put bystander bumped roster,
            find_person-put bystander cleared once,
          ),
        )
  ]
