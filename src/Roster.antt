-- ===== src/Roster.antt =====
-- The people that a host has met (apps/electron-client/src/personRoster.ts) and their PINs
-- (apps/electron-client/src/pinHash.ts, packages/sync-protocol/lib/roster.ts). A write replaces the
-- file whole, so the roster in memory is the one on the disk.
use mathlib.Core.Bool.{◌&&◌, ◌&&◌, ◌&&◌, ◌&&◌, ◌&&◌}
use Prim.Native.Char.{code}
use Prim.Native.String.{[] as nil_text, ◌∷◌ as cons_text}
use tapes_monorepo.Base.{
  ℕ, ◌+◌, String, Bool, false, not, ◌&&◌, List, [], ◌∷◌, ◌++◌, Option, none, some, ◌≡◌, refl, arith,
  eq_iff, if◌then◌else◌, leb, text_eq, nat_eq, ◌==◌, ==_refl, is_some, is_digit, list_eq, filter,
  any,
}
use tapes_monorepo.Statements.{VouchMethod, Signed}

pub record PinHash : Type 0 where
  pub salt : String
  pub hash : String
  pub iterations : ℕ

-- A vouch that the host signed, as its roster remembers it.
pub record SignedVouch : Type 0 where
  pub address : String
  pub device_key : String
  pub device_label : String
  pub device_fingerprint : String
  pub vouch_method : VouchMethod
  pub vouched_at : String
  pub revoked_at : Option String
  pub revocation : Option String

pub record StoredPasskeyRecord : Type 0 where
  pub credential_id : String
  pub token_hash : String
  pub stored_record : String
  pub stored_at : String

pub record RosterEntry : Type 0 where
  pub person_key : String
  pub name : String
  -- the address of the certificate, and the certificate
  pub first_certificate : String × Signed
  pub pin : Option PinHash
  pub pin_failures : Option ℕ
  pub vouches : List SignedVouch
  pub passkey_records : List StoredPasskeyRecord
  pub joined_at : String

abbrev pub Roster : Type 0
Roster = List RosterEntry

unfoldable pub find_person : String → Roster → Option RosterEntry
find_person key [] = none
find_person key (e ∷ es) = if e.person_key == key then some e else find_person key es

-- `replace`, which is `put`: the entry goes to the end
unfoldable pub put_person : RosterEntry → Roster → Roster
put_person e roster = filter (λ each. not (each.person_key == e.person_key)) roster ++ e ∷ []

-- `update`: the roster, and what was written
unfoldable pub update_person :
    String → (RosterEntry → Option RosterEntry) → Roster → Roster × Option RosterEntry
unfolding put_person
update_person key change roster = elim (find_person key roster) [
  | none ↦ (roster, none)
  | some e ↦ elim (change e) [
    | none ↦ (roster, none)
    | some next ↦ (put_person next roster, some next)
  ]
]

find_person-append :
    (key : String) (xs ys : Roster)
    → find_person key (xs ++ ys)
      ≡ elim (find_person key xs) [ none ↦ find_person key ys | some e ↦ some e ]
unfolding find_person
find_person-append key [] ys = refl
find_person-append key (x ∷ xs) ys = ground (arith, find_person-append key xs ys)

find_person-filter :
    (key gone : String) (xs : Roster)
    → find_person key (filter (λ each. not (each.person_key == gone)) xs)
      ≡ (if gone == key then none else find_person key xs)
unfolding find_person
find_person-filter key gone [] = ground arith
find_person-filter key gone (x ∷ xs) = ground (
  arith,
  find_person-filter key gone xs,
  eq_iff x.person_key gone,
  eq_iff x.person_key key,
  eq_iff gone key,
)

pub find_person-put :
    (key : String) (e : RosterEntry) (roster : Roster)
    → find_person key (put_person e roster)
      ≡ (if e.person_key == key then some e else find_person key roster)
unfolding put_person find_person
find_person-put key e roster = ground (
  arith,
  find_person-append key (filter (λ each. not (each.person_key == e.person_key)) roster) (e ∷ []),
  find_person-filter key e.person_key roster,
)

pub find_person-key :
    (key : String) (roster : Roster) (e : RosterEntry)
    → find_person key roster ≡ some e
    → e.person_key ≡ key
unfolding find_person
find_person-key key [] e h = ground arith
find_person-key key (x ∷ xs) e h = ground (arith, find_person-key key xs e, eq_iff x.person_key key)

abbrev count_digits : String → Option ℕ
count_digits nil_text = some 0
count_digits (cons_text c s) =
    let rest = count_digits s in
    if is_digit (code c) then elim rest [ none ↦ none | some n ↦ some (n + 1) ] else none

-- `/^\d{4,6}$/`
unfoldable pub is_valid_pin : String → Bool
is_valid_pin pin = elim (count_digits pin) [ none ↦ false | some n ↦ leb 4 n && leb n 6 ]

-- `derive pin salt iterations` is PBKDF2, in base64url.
module _ (derive : String → String → ℕ → String) where
  unfoldable pub hash_pin : String → String → PinHash
  hash_pin salt pin = record { salt = salt; hash = derive pin salt 100_000; iterations = 100_000 }

  unfoldable pub pin_matches : String → PinHash → Bool
  pin_matches pin stored =
      if not (is_valid_pin pin)
      then false
      else derive pin stored.salt stored.iterations == stored.hash

  pub pin_matches-hash_pin :
      (salt pin : String) → pin_matches pin (hash_pin salt pin) ≡ is_valid_pin pin
  unfolding pin_matches hash_pin
  pin_matches-hash_pin salt pin = ground (arith, ==_refl (derive pin salt 100_000))

-- `isRevokedDeviceKey` (apps/electron-client/src/revokedDeviceKeys.ts), asked at each sync upgrade
unfoldable pub is_revoked_device_key : String → Roster → Bool
is_revoked_device_key device_key roster =
    any (λ person. any (λ v. v.device_key == device_key && is_some v.revoked_at) person.vouches)
      roster
