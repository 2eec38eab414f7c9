-- ===== src/Vouching/Standing.antt =====
-- hostVouching.ts: a vouch that was handed out is on the roster, until it is withdrawn.
use tapes_monorepo.Base.{
  ℕ, ◌+◌, String, Bool, true, false, not, List, [], ◌∷◌, ◌++◌, inl, inr, none, some, ◌≡◌, refl, ◌∙◌,
  ap, arith, text_eq, nat_eq, ◌==◌, ==_refl, Option-cases, is_some, filter, find, get, get-set,
}
use tapes_monorepo.Statements.{VouchMethod, Payload, Signed, by_operator, by_pin, a_vouch}
use tapes_monorepo.Roster.{
  PinHash, SignedVouch, RosterEntry, Roster, find_person, put_person, update_person,
  find_person-put, find_person-key, pin_matches,
}
use tapes_monorepo.Vouching.{
  Entry, HostVouching, failures_of, drop_stale, pending_entry, begin_check, reject, vouched,
  pin_vouched,
}
use tapes_monorepo.Vouching.Pins.{finish_check}
use tapes_monorepo.Vouching.Vouches.{
  settle_entry, vouch_at, signed, create_device_vouch, recorded, vouch_for, confirm,
  begin_enter_pin, finish_enter_pin,
}

-- The person's entry has the vouch, and it is not revoked.
abbrev pub stands_at : String → String → Roster → Bool
stands_at key address roster = elim (find_person key roster) [
  | none ↦ false
  | some person ↦ elim (vouch_at address person) [
    | none ↦ false
    | some v ↦ not (is_some v.revoked_at)
  ]
]

find-added :
    (address : String) (v : SignedVouch) (vs : List SignedVouch)
    → v.address ≡ address
    → find
        (λ each. each.address == address)
        (filter (λ each. not (each.address == address)) vs ++ v ∷ [])
      ≡ some v
find-added address v [] same = ground (arith, same, ==_refl address)
find-added address v (w ∷ vs) same = ground (arith, find-added address v vs same)

module _ (sign : Payload → String) (address_of : Signed → String) (iso : ℕ → String)
    (host_key host_label : String) where
  vouch_for-stands :
      (id : String) (e : Entry) (method : VouchMethod) (now : ℕ) (h after : HostVouching)
      (vouch : Signed)
      → vouch_for sign address_of iso host_key host_label id e method now h ≡ (after, some vouch)
      → stands_at e.request.person_key (address_of vouch) after.roster ≡ true
  unfolding vouch_for update_person
  vouch_for-stands id e method now h after vouch done =
      elim (Option-cases (find_person e.request.person_key h.roster)) [
        | inl absent ↦ absurd (ground (arith, absent, done))
        | inr (person, known) ↦
            let v =
              create_device_vouch sign address_of iso host_key host_label e.request person method
                now in
            let added = recorded sign address_of iso host_key host_label e v in
            let holder : RosterEntry = record person {
              vouches =
                  filter (λ each. not (each.address == added.address)) person.vouches ++ added ∷ [];
            } in
            ground (
              arith,
              known,
              done,
              find_person-key e.request.person_key h.roster person known,
              ==_refl e.request.person_key,
              find_person-put e.request.person_key holder h.roster,
              find-added added.address added person.vouches refl,
            )
      ]

  vouch_for-settles :
      (id : String) (e : Entry) (method : VouchMethod) (now : ℕ) (h after : HostVouching)
      (vouch : Signed)
      → vouch_for sign address_of iso host_key host_label id e method now h ≡ (after, some vouch)
      → pending_entry id after ≡ none
  unfolding vouch_for settle_entry pending_entry
  vouch_for-settles id e method now h after vouch done = elim (Option-cases (get id h.entries)) [
    | inl gone ↦ ground (arith, gone, done)
    | inr (c, found) ↦
        let marked : Entry = record c { status = vouched; vouch = some vouch } in
        ground (arith, found, done, ==_refl id, get-set id id marked h.entries)
  ]

  -- When the host has confirmed a request, the vouch that it hands out stands on the roster under the
  -- person who asked, and the request is no longer pending, so it is not confirmed again.
  pub confirm_lem :
      (id : String) (now : ℕ) (h after : HostVouching) (vouch : Signed)
      → confirm sign address_of iso host_key host_label id now h ≡ (after, some vouch)
      → (e : Entry) × (pending_entry id (drop_stale now h) ≡ some e)
        × (stands_at e.request.person_key (address_of vouch) after.roster ≡ true)
        × (pending_entry id after ≡ none)
  unfolding confirm
  confirm_lem id now h after vouch done =
      elim (Option-cases (pending_entry id (drop_stale now h))) [
        | inl gone ↦ absurd (ground (arith, gone, done))
        | inr (e, found) ↦
            let vouched_for_it : vouch_for sign address_of iso host_key host_label id e by_operator
                  now (drop_stale now h)
                ≡ (after, some vouch) =
              ground (arith, found, done) in
            (
              e,
              found,
              vouch_for-stands id e by_operator now (drop_stale now h) after vouch vouched_for_it,
              vouch_for-settles id e by_operator now (drop_stale now h) after vouch vouched_for_it,
            )
      ]

  module _ (derive : String → String → ℕ → String) where
    reject-roster : (id : String) (now : ℕ) (h : HostVouching) → (reject id now h).roster ≡ h.roster
    unfolding reject drop_stale
    reject-roster id now h = ground arith

    begin-known :
        (id : String) (now : ℕ) (h counted_host : HostVouching) (e : Entry) (c : RosterEntry)
        → begin_enter_pin sign address_of iso host_key host_label id now h
          ≡ (counted_host, some (e, some c))
        → find_person e.request.person_key counted_host.roster ≡ some c
    unfolding begin_enter_pin begin_check update_person
    begin-known id now h counted_host e c begun =
        elim (Option-cases (pending_entry id (drop_stale now h))) [
          | inl gone ↦ absurd (ground (arith, gone, begun))
          | inr (asked, found) ↦
              elim (Option-cases (find_person asked.request.person_key (drop_stale now h).roster)) [
                | inl absent ↦ absurd (ground (arith, found, absent, begun))
                | inr (person, known) ↦ ground (
                  arith,
                  found,
                  known,
                  begun,
                  ==_refl asked.request.person_key,
                  find_person-key asked.request.person_key (drop_stale now h).roster person known,
                  find_person-put asked.request.person_key
                      (record person { pin_failures = some (failures_of person + 1) })
                      (drop_stale now h).roster,
                )
              ]
        ]

    finish-vouches :
        (id guess : String) (now : ℕ) (h : HostVouching) (e : Entry) (c : RosterEntry)
        (hash : PinHash)
        → find_person e.request.person_key h.roster ≡ some c
        → c.pin ≡ some hash
        → pin_matches derive guess hash ≡ true
        → let (after, result) =
            finish_enter_pin sign address_of iso host_key host_label derive id guess
              (some (e, some c))
              now
              h in
          (vouch : Signed) × (result ≡ some (pin_vouched vouch))
          × (stands_at e.request.person_key (address_of vouch) after.roster ≡ true)
    unfolding finish_enter_pin finish_check vouch_for update_person
    finish-vouches id guess now h e c hash known has_hash right =
        let cleared : RosterEntry = record c { pin_failures = none } in
        let h' : HostVouching = record h { roster = put_person cleared h.roster } in
        let v =
          create_device_vouch sign address_of iso host_key host_label e.request cleared by_pin
            now in
        let vouch = signed sign address_of iso host_key host_label (a_vouch v) in
        let keyed = find_person-key e.request.person_key h.roster c known in
        let still = find_person-put e.request.person_key cleared h.roster in
        let done : vouch_for sign address_of iso host_key host_label id e by_pin now h' ≡ (
          (vouch_for sign address_of iso host_key host_label id e by_pin now h').0,
          some vouch,
        ) =
          ground (arith, keyed, still, ==_refl e.request.person_key) in
        (
          vouch,
          ground (arith, known, has_hash, right, keyed, still, ==_refl e.request.person_key, done),
          ground (
            arith,
            known,
            has_hash,
            right,
            keyed,
            vouch_for-stands id e by_pin now h'
                (vouch_for sign address_of iso host_key host_label id e by_pin now h').0 vouch done,
          ),
        )

    -- Where the operator rejects a request after its PIN guess was counted and before it is compared,
    -- a right guess is still answered with a vouch, and the vouch stands on the roster.
    pub enter_pin_after-reject :
        (id guess : String) (now rejected_at later : ℕ) (h counted_host : HostVouching) (e : Entry)
        (c : RosterEntry) (hash : PinHash)
        → begin_enter_pin sign address_of iso host_key host_label id now h
          ≡ (counted_host, some (e, some c))
        → c.pin ≡ some hash
        → pin_matches derive guess hash ≡ true
        → let (after, result) =
            finish_enter_pin sign address_of iso host_key host_label derive id guess
              (some (e, some c))
              later
              (reject id rejected_at counted_host) in
          (vouch : Signed) × (result ≡ some (pin_vouched vouch))
          × (stands_at e.request.person_key (address_of vouch) after.roster ≡ true)
    enter_pin_after-reject id guess now rejected_at later h counted_host e c hash begun has_hash
          right =
        finish-vouches id guess later (reject id rejected_at counted_host) e c hash
          (ap (find_person e.request.person_key) (reject-roster id rejected_at counted_host)
            ∙ begin-known id now h counted_host e c begun)
          has_hash right
