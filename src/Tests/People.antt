-- ===== src/Tests/People.antt =====
-- hostVouching.ts and passkeyRecords.ts on a host that knows one person.
use tapes_monorepo.Base.{
  ℕ, ◌-◌, ◌≤◌, String, Bool, true, List, [], ◌∷◌, ◌≢◌, ◌⊎◌, inl, Option, none, some, ◌≡◌, refl,
  arith, text_eq, nat_eq, get,
}
use tapes_monorepo.Statements.{
  JoinRequest, VouchRequest, Payload, Signed, by_operator, a_vouch, a_vouch_request, other,
}
use tapes_monorepo.Roster.{
  is_revoked_device_key, PinHash, SignedVouch, StoredPasskeyRecord, RosterEntry, Roster,
  find_person, update_person, is_valid_pin, pin_matches,
}
use tapes_monorepo.Vouching.{
  max_pin_failures, Entry, HostVouching, drop_stale_entries, drop_stale, pending_entry, reject,
  pending, pin_vouched,
}
use tapes_monorepo.Vouching.Pins.{check_pin, set_pin, pin_outcome, check_pin_lem}
use tapes_monorepo.Vouching.Limits.{begin_checks, failures_at, guesses_at, guesses_bounded}
use tapes_monorepo.Vouching.Vouches.{
  RevokeVouchResult, find_vouch, signed_vouch_state, signed, create_device_vouch, confirm,
  begin_enter_pin, finish_enter_pin, revoke_vouch, revoked, already_revoked, withdrawn,
}
use tapes_monorepo.Vouching.Standing.{stands_at, confirm_lem, enter_pin_after-reject}
use tapes_monorepo.Vouching.Withdrawal.{revoke_vouch_lem}
use tapes_monorepo.Vouching.Requests.{IsSound, after}
use tapes_monorepo.Vouching.Joining.{add_or_rename, sets_pin}
use tapes_monorepo.Vouching.Steps.{VouchingStep, take_steps, take_steps-IsSound, asks, rejects}
use tapes_monorepo.Passkeys.{WriteProblem, PasskeyWrite, store_record, malformed_write}
use tapes_monorepo.Passkeys.Owners.{holders, store_record-holders}

abbrev pub trusting : String → Payload → String → Bool
trusting key payload signature = true

abbrev fingerprint : String → Option String
fingerprint key = some key

-- A hash that gives its input back.
abbrev plain_derive : String → String → ℕ → String
plain_derive pin salt iterations = pin

abbrev sign : Payload → String
sign payload = "signature"

abbrev address_of : Signed → String
address_of s = elim s.payload [ a_vouch v ↦ v.device_key | _ ↦ "revocation" ]

abbrev iso : ℕ → String
iso now = "now"

abbrev certificate : Signed
certificate = record { payload = other; signature = "" }

abbrev sam_pin : PinHash
sam_pin = record { salt = "s"; hash = "1234"; iterations = 100_000 }

abbrev sam : RosterEntry
sam = record {
  person_key = "sam";
  name = "Sam";
  first_certificate = ("c", certificate);
  pin = some sam_pin;
  pin_failures = some 3;
  vouches = [];
  passkey_records = [];
  joined_at = "then";
}

abbrev band : Roster
band = sam ∷ []

abbrev phone_request : VouchRequest
phone_request = record {
  device_key = "phone";
  person_key = "sam";
  device_label = "Phone";
  requested_at = "then";
}

abbrev waiting_entry : Entry
waiting_entry = record {
  id = "1";
  request = phone_request;
  person_name = "Sam";
  device_fingerprint = "phone";
  received_at = 1000;
  status = pending;
  vouch = none;
}

abbrev host : HostVouching
host = record { roster = band; entries = ("1", waiting_entry) ∷ [] }

abbrev sam_key : String
sam_key = "sam"

abbrev alex_key : String
alex_key = "alex"

check_pin_example :
    let (after, result) = check_pin plain_derive "sam" "9999" band in
    let outcome = pin_outcome plain_derive "9999" (find_person "sam" band) in
    (find_person "sam" after ≡ outcome.0)
    × (result ≡ outcome.1)
    × (sam_key ≢ alex_key → find_person "alex" after ≡ find_person "alex" band)
check_pin_example = check_pin_lem plain_derive "sam" "alex" "9999" band

-- The third guess of a person who has two left.
guesses_bounded_example :
    guesses_at "sam" (begin_checks ("sam" ∷ "sam" ∷ "sam" ∷ []) band).1
    ≤ max_pin_failures - failures_at "sam" band
guesses_bounded_example = guesses_bounded ("sam" ∷ "sam" ∷ "sam" ∷ []) "sam" band

abbrev reset_band : Roster
reset_band = (set_pin plain_derive "s" "sam" (some "5678") band).0

abbrev confirmed : HostVouching × Option Signed
confirmed = confirm sign address_of iso "host" "Host" "1" 2000 host

abbrev phone_vouch : Signed
phone_vouch = signed sign address_of iso "host" "Host" (
    a_vouch
      (create_device_vouch sign address_of iso "host" "Host" phone_request sam by_operator 2000))

confirm_example :
    (e : Entry) × (pending_entry "1" (drop_stale 2000 host) ≡ some e)
    × (stands_at e.request.person_key (address_of phone_vouch) confirmed.0.roster ≡ true)
    × (pending_entry "1" confirmed.0 ≡ none)
unfolding confirm drop_stale_entries get find_person
confirm_example =
    confirm_lem sign address_of iso "host" "Host" "1" 2000 host confirmed.0 phone_vouch refl

abbrev begun : HostVouching × Option (Entry × Option RosterEntry)
begun = begin_enter_pin sign address_of iso "host" "Host" "1" 2000 host

abbrev sam_counted : RosterEntry
sam_counted = record sam { pin_failures = some 4 }

enter_pin_after-reject_example :
    let (after, result) =
      finish_enter_pin sign address_of iso "host" "Host" plain_derive "1" "1234"
        (some (waiting_entry, some sam_counted))
        4000
        (reject "1" 3000 begun.0) in
    (vouch : Signed) × (result ≡ some (pin_vouched vouch))
    × (stands_at "sam" (address_of vouch) after.roster ≡ true)
unfolding begin_enter_pin drop_stale_entries get find_person update_person is_valid_pin pin_matches
enter_pin_after-reject_example =
    enter_pin_after-reject sign address_of iso "host" "Host" plain_derive "1" "1234" 2000 3000 4000
      host begun.0 waiting_entry sam_counted sam_pin refl refl refl

abbrev held_vouch : SignedVouch
held_vouch = record {
  address = "phone";
  device_key = "phone";
  device_label = "Phone";
  device_fingerprint = "phone";
  vouch_method = by_operator;
  vouched_at = "then";
  revoked_at = none;
  revocation = none;
}

abbrev vouched_sam : RosterEntry
vouched_sam = record sam { vouches = held_vouch ∷ [] }

abbrev vouched_band : Roster
vouched_band = vouched_sam ∷ []

abbrev revoked_band : Roster × Option RevokeVouchResult
revoked_band =
    revoke_vouch sign address_of iso "host" "Host" true "phone" 5000 (some ("doc" ∷ []))
      vouched_band

revoke_vouch_example :
    (revoked_band.1 ≡ some (revoked "revocation" ("doc" ∷ [])))
    × (signed_vouch_state "phone" revoked_band.0 ≡ some (withdrawn "now" (some "revocation")))
    × (revoke_vouch sign address_of iso "host" "Host" true "phone" 6000 none revoked_band.0
        ≡ (revoked_band.0, some already_revoked))
    × (is_revoked_device_key held_vouch.device_key revoked_band.0 ≡ true)
unfolding find_vouch find_person
revoke_vouch_example =
    revoke_vouch_lem sign address_of iso "host" "Host" 5000 "phone" ("doc" ∷ []) vouched_band
      vouched_sam held_vouch refl refl refl refl 6000 none

-- The same device asks twice, and the operator rejects it.
abbrev steps : List (VouchingStep × ℕ)
steps =
    (asks (record { payload = a_vouch_request phone_request; signature = "" }) "2", 2000)
    ∷ (asks (record { payload = a_vouch_request phone_request; signature = "" }) "3", 2500)
    ∷ (rejects "2", 3000)
    ∷ []

abbrev quiet_host : HostVouching
quiet_host = record { roster = band; entries = [] }

take_steps-IsSound_example :
    IsSound
      (take_steps trusting fingerprint sign address_of iso "host" "Host" plain_derive steps
        quiet_host).entries
take_steps-IsSound_example =
    take_steps-IsSound trusting fingerprint sign address_of iso "host" "Host" plain_derive steps
      quiet_host (record { few = omega arith; apart = λ r. omega arith })

abbrev new_record : StoredPasskeyRecord
new_record = record {
  credential_id = "key";
  token_hash = "hash";
  stored_record = "text";
  stored_at = "then";
}

store_record-holders_example : holders "key" (store_record "sam" new_record band band).0 ≤ 1
store_record-holders_example =
    store_record-holders "key" "sam" new_record band band refl (omega arith)

abbrev no_write : String → String → WriteProblem ⊎ PasskeyWrite
no_write encoded text = inl malformed_write

abbrev any_record : String → PasskeyWrite → Bool
any_record text write = true

abbrev same_text : String → String
same_text token = token

abbrev alex_join : JoinRequest
alex_join = record { person_key = "alex"; person_name = "Alex"; certificate = "c"; challenge = "x" }

abbrev any_name : String → Option String
any_name s = some s

abbrev joined_band : Roster
joined_band =
    add_or_rename trusting address_of any_name plain_derive "s" "Alex" (sets_pin "4321") alex_join
      certificate "now" band
