-- ===== src/Vouching.antt =====
-- The host's side of vouching (apps/electron-client/src/hostVouching.ts).
pub mod Pins
pub mod Limits
pub mod Vouches
pub mod Standing
pub mod Withdrawal
pub mod Requests
pub mod Steps
pub mod Joining
use tapes_monorepo.Base.{
  ℕ, ◌+◌, ◌-◌, ◌*◌, ◌<◌, String, Bool, true, false, not, ◌&&◌, List, Option, none, some,
  if◌then◌else◌, ltb, leb, text_eq, nat_eq, ◌==◌, is_some, or_else, length, filter, find, Dict,
  values, get, set,
}
use tapes_monorepo.Statements.{
  VouchRequest, Payload, Signed, Problem, check_vouch_request, passes, fails,
}
use tapes_monorepo.Roster.{RosterEntry, Roster, find_person, update_person}

abbrev pub max_pending : ℕ
max_pending = 16

abbrev pub pending_ttl_ms : ℕ
pending_ttl_ms = 10 * 60_000

abbrev pub max_pin_failures : ℕ
max_pin_failures = 5

pub data EntryStatus : Type 0 where
  pending rejected vouched : EntryStatus

-- A request of a device, and the vouch that it got.
pub record Entry : Type 0 where
  pub id : String
  pub request : VouchRequest
  pub person_name : String
  pub device_fingerprint : String
  pub received_at : ℕ
  pub status : EntryStatus
  pub vouch : Option Signed

pub record HostVouching : Type 0 where
  pub roster : Roster
  pub entries : Dict String Entry

pub data PinCheck : Type 0 where
  pin_ok : PinCheck
  wrong_pin : ℕ → PinCheck
  locked no_pin : PinCheck

pub data RequestResult : Type 0 where
  requested : String → RequestResult
  bad_request : Problem → RequestResult
  unknown_person too_many_pending : RequestResult

pub data PinResult : Type 0 where
  pin_vouched : Signed → PinResult
  not_pending : PinResult
  refused : PinCheck → PinResult

pub data PinChangeResult : Type 0 where
  changed : PinChangeResult
  change_refused : PinCheck → PinChangeResult
  no_person bad_pin : PinChangeResult

abbrev pub failures_of : RosterEntry → ℕ
failures_of e = or_else e.pin_failures 0

abbrev pub is_locked : RosterEntry → Bool
is_locked e = leb max_pin_failures (failures_of e)

abbrev pub is_pending : Entry → Bool
is_pending e = elim e.status [ pending ↦ true | _ ↦ false ]

-- `receivedAt < now - PENDING_TTL_MS`
abbrev pub is_stale : ℕ → Entry → Bool
is_stale now e = ltb (e.received_at + pending_ttl_ms) now

unfoldable pub drop_stale_entries : ℕ → Dict String Entry → Dict String Entry
drop_stale_entries now = filter (λ (id, e). not (is_stale now e))

unfoldable pub drop_stale : ℕ → HostVouching → HostVouching
unfolding drop_stale_entries
drop_stale now h = record h { entries = drop_stale_entries now h.entries }

abbrev pub pending_of : Dict String Entry → List Entry
pending_of entries = filter is_pending (values entries)

-- `pendingEntry`, behind its `dropStale`
unfoldable pub pending_entry : String → HostVouching → Option Entry
pending_entry id h = elim (get id h.entries) [
  | none ↦ none
  | some e ↦ if is_pending e then some e else none
]

-- The change of the first write of `checkPin`: a guess is counted before it is looked at.
abbrev pub count_guess : RosterEntry → Option RosterEntry
count_guess e =
    if is_some e.pin && not (is_locked e)
    then some (record e { pin_failures = some (failures_of e + 1) })
    else none

abbrev clear_failures : RosterEntry → Option RosterEntry
clear_failures e = some (record e { pin_failures = none })

-- The write that `checkPin` begins with.
unfoldable pub begin_check : String → Roster → Roster × Option RosterEntry
begin_check key roster = update_person key count_guess roster

-- `unlockPin`
unfoldable pub unlock_pin : String → HostVouching → HostVouching × Bool
unlock_pin key h = elim (find_person key h.roster) [
  | none ↦ (h, false)
  | some e ↦ (
    record h {
      roster =
          (update_person key
            (λ e. if is_some e.pin_failures then some (record e { pin_failures = none }) else none)
            h.roster).0;
    },
    true,
  )
]

-- `roster`: what a guest sees of a person
abbrev pub has_pin : RosterEntry → Bool
has_pin e = is_some e.pin

abbrev pub pin_locked : RosterEntry → Bool
pin_locked e = is_some e.pin && is_locked e

-- A new request's entry, or the one that its device has.
abbrev is_asked_by : VouchRequest → Entry → Bool
is_asked_by r e = e.request.device_key == r.device_key && e.request.person_key == r.person_key

module _ (verify : String → Payload → String → Bool) (fingerprint : String → Option String) where
  -- `request`, with the id that `randomUUID` gives
  unfoldable pub request : HostVouching → Signed → String → ℕ → HostVouching × RequestResult
  unfolding drop_stale
  request h signed fresh now =
      let h' = drop_stale now h in
      elim (check_vouch_request verify signed) [
        | fails problem ↦ (h', bad_request problem)
        | passes r ↦ elim (find_person r.person_key h'.roster) [
          | none ↦ (h', unknown_person)
          | some person ↦ elim (find (is_asked_by r) (pending_of h'.entries)) [
            | some existing ↦ (h', requested existing.id)
            | none ↦
                if leb max_pending (length (pending_of h'.entries))
                then (h', too_many_pending)
                else (
                  record h' {
                    entries =
                        set fresh
                          (record {
                            id = fresh;
                            request = r;
                            person_name = person.name;
                            device_fingerprint = or_else (fingerprint r.device_key) "?";
                            received_at = now;
                            status = pending;
                            vouch = none;
                          })
                          h'.entries;
                  },
                  requested fresh,
                )
          ]
        ]
      ]

-- `reject`
unfoldable pub reject : String → ℕ → HostVouching → HostVouching
unfolding drop_stale pending_entry
reject id now h =
    let h' = drop_stale now h in
    elim (pending_entry id h') [
      | none ↦ h'
      | some e ↦ record h' { entries = set id (record e { status = rejected }) h'.entries }
    ]
