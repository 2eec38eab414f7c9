-- ===== src/Vouching/Vouches.antt =====
-- hostVouching.ts: the vouches that the host signs, remembers and withdraws.
use tapes_monorepo.Base.{
  ℕ, String, Bool, not, List, [], ◌∷◌, ◌++◌, map, Option, none, some, if◌then◌else◌, text_eq,
  nat_eq, ◌==◌, is_some, filter, find, Dict, get, set,
}
use tapes_monorepo.Statements.{
  VouchRequest, VouchMethod, DeviceVouch, DeviceRevocation, Payload, Signed, by_operator, by_pin,
  by_host, wrong_person, a_vouch, a_revocation,
}
use tapes_monorepo.Roster.{SignedVouch, RosterEntry, Roster, find_person, update_person}
use tapes_monorepo.Vouching.{
  Entry, HostVouching, PinResult, drop_stale, pending_entry, begin_check, vouched, pin_vouched,
  not_pending, refused,
}
use tapes_monorepo.Vouching.Pins.{is_pin_ok, finish_check}

pub data RevokeVouchResult : Type 0 where
  revoked : String → List String → RevokeVouchResult
  unknown_vouch already_revoked no_delivery : RevokeVouchResult

pub data VouchState : Type 0 where
  standing : VouchState
  withdrawn : String → Option String → VouchState

abbrev mark_vouched : Signed → Entry → Entry
mark_vouched vouch e = record e { status = vouched; vouch = some vouch }

-- The entry is a shared object, so the mark is seen where the map still has it.
unfoldable pub settle_entry : String → Signed → Dict String Entry → Dict String Entry
settle_entry id vouch entries = elim (get id entries) [
  | none ↦ entries
  | some e ↦ set id (mark_vouched vouch e) entries
]

abbrev add_vouch : SignedVouch → RosterEntry → Option RosterEntry
add_vouch v saved = some (record saved {
  vouches = filter (λ each. not (each.address == v.address)) saved.vouches ++ v ∷ [];
})

abbrev pub vouch_at : String → RosterEntry → Option SignedVouch
vouch_at address person = find (λ each. each.address == address) person.vouches

-- `findVouch`
unfoldable pub find_vouch : String → Roster → Option (RosterEntry × SignedVouch)
find_vouch address [] = none
find_vouch address (person ∷ people) =
    let rest = find_vouch address people in
    elim (vouch_at address person) [ none ↦ rest | some v ↦ some (person, v) ]

-- `signedVouchState`; a time is never an empty text
unfoldable pub signed_vouch_state : String → Roster → Option VouchState
signed_vouch_state address roster = elim (find_vouch address roster) [
  | none ↦ none
  | some (person, v) ↦
      some (elim v.revoked_at [ none ↦ standing | some at ↦ withdrawn at v.revocation ])
]

abbrev pub mark_revoked : String → String → String → SignedVouch → SignedVouch
mark_revoked address at revocation each =
    if each.address == address
    then record each { revoked_at = some at; revocation = some revocation }
    else each

-- `sign` makes the host key's signature of a payload, `address_of` is the hash of a statement's
-- bytes, and `iso` writes a time.
module _ (sign : Payload → String) (address_of : Signed → String) (iso : ℕ → String)
    (host_key host_label : String) where
  abbrev pub signed : Payload → Signed
  signed p = record { payload = p; signature = sign p }

  -- `createDeviceVouch`
  unfoldable pub create_device_vouch : VouchRequest → RosterEntry → VouchMethod → ℕ → DeviceVouch
  create_device_vouch r person method now = record {
    host_key = host_key;
    host_label = host_label;
    person_key = r.person_key;
    person_name = person.name;
    device_key = r.device_key;
    device_label = r.device_label;
    vouch_method = method;
    first_certificate = person.first_certificate.0;
    vouched_at = iso now;
  }

  -- the roster's record of a vouch
  abbrev pub recorded : Entry → DeviceVouch → SignedVouch
  recorded e v = record {
    address = address_of (signed (a_vouch v));
    device_key = v.device_key;
    device_label = v.device_label;
    device_fingerprint = e.device_fingerprint;
    vouch_method = v.vouch_method;
    vouched_at = v.vouched_at;
    revoked_at = none;
    revocation = none;
  }

  -- `vouchFor`; it throws, and nothing is signed, where the person is not on the roster
  unfoldable pub vouch_for :
      String → Entry → VouchMethod → ℕ → HostVouching → HostVouching × Option Signed
  unfolding create_device_vouch settle_entry
  vouch_for id e method now h = elim (find_person e.request.person_key h.roster) [
    | none ↦ (h, none)
    | some person ↦
        let v = create_device_vouch e.request person method now in
        let vouch = signed (a_vouch v) in
        (
          record {
            roster = (update_person person.person_key (add_vouch (recorded e v)) h.roster).0;
            entries = settle_entry id vouch h.entries;
          },
          some vouch,
        )
  ]

  unfoldable pub confirm : String → ℕ → HostVouching → HostVouching × Option Signed
  unfolding drop_stale pending_entry vouch_for
  confirm id now h =
      let h' = drop_stale now h in
      elim (pending_entry id h') [ none ↦ (h', none) | some e ↦ vouch_for id e by_operator now h' ]

  -- `enterPin` in two parts: what it does before PBKDF2 runs, and after. In between, the host
  -- serves other calls.
  unfoldable pub begin_enter_pin :
      String → ℕ → HostVouching → HostVouching × Option (Entry × Option RosterEntry)
  unfolding drop_stale pending_entry begin_check
  begin_enter_pin id now h =
      let h' = drop_stale now h in
      elim (pending_entry id h') [
        | none ↦ (h', none)
        | some e ↦
            let (counted_roster, counted) = begin_check e.request.person_key h'.roster in
            (record h' { roster = counted_roster }, some (e, counted))
      ]

  module _ (derive : String → String → ℕ → String) where
    unfoldable pub finish_enter_pin :
        String
        → String
        → Option (Entry × Option RosterEntry)
        → ℕ
        → HostVouching
        → HostVouching × Option PinResult
    unfolding finish_check vouch_for
    finish_enter_pin id guess begun now h = elim begun [
      | none ↦ (h, some not_pending)
      | some (e, counted) ↦
          let (roster, result) = finish_check derive e.request.person_key guess counted h.roster in
          let h' : HostVouching = record h { roster = roster } in
          let (after, vouch) = vouch_for id e by_pin now h' in
          if is_pin_ok result
          then (after, elim vouch [ none ↦ none | some v ↦ some (pin_vouched v) ])
          else (h', some (refused result))
    ]

    -- `enterPin`, undisturbed
    unfoldable pub enter_pin : String → String → ℕ → HostVouching → HostVouching × Option PinResult
    unfolding begin_enter_pin finish_enter_pin
    enter_pin id guess now h =
        let (counted_host, begun) = begin_enter_pin id now h in
        finish_enter_pin id guess begun now counted_host

  module _ (delivers : Bool) where
    -- `createDeviceRevocation`, as the host calls it
    unfoldable pub create_device_revocation : SignedVouch → ℕ → DeviceRevocation
    create_device_revocation v now = record {
      signer_key = host_key;
      signed_by = by_host;
      device_key = v.device_key;
      device_link = v.address;
      reason = wrong_person;
      revoked_at = iso now;
    }

    -- `revokeVouch`. `delivers` says whether there is a delivery, and `delivered` what it comes to:
    -- the recordings that list the revocation, or nothing where it throws, as this then does.
    unfoldable pub revoke_vouch :
        String → ℕ → Option (List String) → Roster → Roster × Option RevokeVouchResult
    unfolding create_device_revocation
    revoke_vouch address now delivered roster =
        if not delivers then (roster, some no_delivery) else elim (find_vouch address roster) [
          | none ↦ (roster, some unknown_vouch)
          | some (person, v) ↦
              if is_some v.revoked_at
              then (roster, some already_revoked)
              else let r = create_device_revocation v now in
                let revocation = address_of (signed (a_revocation r)) in
                elim delivered [
                  | none ↦ (roster, none)
                  | some listed_on ↦ (
                    (update_person person.person_key
                        (λ saved. some (record saved {
                          vouches =
                              map (mark_revoked address r.revoked_at revocation) saved.vouches;
                        }))
                        roster).0,
                    some (revoked revocation listed_on),
                  )
                ]
        ]
