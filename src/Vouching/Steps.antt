-- ===== src/Vouching/Steps.antt =====
-- hostVouching.ts: requests, answers of the operator and guesses, as they interleave.
use tapes_monorepo.Base.{
  ℕ, String, Bool, List, [], ◌∷◌, ◌⊎◌, inl, inr, Option, none, some, ◌≡◌, sym, subst, arith,
  text_eq, nat_eq, Bool-cases, Option-cases,
}
use tapes_monorepo.Statements.{VouchMethod, Payload, Signed, by_operator, by_pin, a_vouch}
use tapes_monorepo.Roster.{RosterEntry, find_person}
use tapes_monorepo.Vouching.{
  Entry, HostVouching, drop_stale_entries, drop_stale, pending_entry, reject, request,
}
use tapes_monorepo.Vouching.Pins.{is_pin_ok, finish_check}
use tapes_monorepo.Vouching.Vouches.{
  settle_entry, signed, create_device_vouch, vouch_for, confirm, begin_enter_pin, finish_enter_pin,
}
use tapes_monorepo.Vouching.Requests.{
  IsSound, drop_stale-IsSound, reject-IsSound, settle_entry-IsSound, request-IsSound,
}

-- What reaches the waiting requests, one step at a time. A PIN guess is two steps, so that others
-- can fall between them; what it finishes with is whatever an earlier step left.
pub data VouchingStep : Type 0 where
  asks : Signed → (fresh : String) → VouchingStep
  confirms : (id : String) → VouchingStep
  rejects : (id : String) → VouchingStep
  begins_pin : (id : String) → VouchingStep
  finishes_pin : (id guess : String) → Option (Entry × Option RosterEntry) → VouchingStep

module _ (verify : String → Payload → String → Bool) (fingerprint : String → Option String)
    (sign : Payload → String) (address_of : Signed → String) (iso : ℕ → String)
    (host_key host_label : String) (derive : String → String → ℕ → String) where
  unfoldable pub take_step : VouchingStep → ℕ → HostVouching → HostVouching
  take_step (asks s fresh) now h = (request verify fingerprint h s fresh now).0
  take_step (confirms id) now h = (confirm sign address_of iso host_key host_label id now h).0
  take_step (rejects id) now h = reject id now h
  take_step (begins_pin id) now h =
      (begin_enter_pin sign address_of iso host_key host_label id now h).0
  take_step (finishes_pin id guess begun) now h =
      (finish_enter_pin sign address_of iso host_key host_label derive id guess begun now h).0

  unfoldable pub take_steps : List (VouchingStep × ℕ) → HostVouching → HostVouching
  unfolding take_step
  take_steps [] h = h
  take_steps ((step, now) ∷ steps) h = take_steps steps (take_step step now h)

  vouch_for-entries :
      (id : String) (e : Entry) (method : VouchMethod) (now : ℕ) (h : HostVouching)
      → let after = (vouch_for sign address_of iso host_key host_label id e method now h).0 in
        (after.entries ≡ h.entries)
        ⊎ ((vouch : Signed) × (after.entries ≡ settle_entry id vouch h.entries))
  unfolding vouch_for
  vouch_for-entries id e method now h =
      elim (Option-cases (find_person e.request.person_key h.roster)) [
        | inl absent ↦ inl (ground (arith, absent))
        | inr (person, known) ↦ inr (
          signed sign address_of iso host_key host_label (
              a_vouch (
                create_device_vouch sign address_of iso host_key host_label e.request person method
                  now)),
          ground (arith, known),
        )
      ]

  vouch_for-IsSound :
      (id : String) (e : Entry) (method : VouchMethod) (now : ℕ) (h : HostVouching)
      → IsSound h.entries
      → IsSound (vouch_for sign address_of iso host_key host_label id e method now h).0.entries
  vouch_for-IsSound id e method now h ok = elim (vouch_for-entries id e method now h) [
    | inl same ↦ subst IsSound (sym same) ok
    | inr (vouch, settled) ↦
        subst IsSound (sym settled) (settle_entry-IsSound id vouch h.entries ok)
  ]

  confirm-IsSound :
      (id : String) (now : ℕ) (h : HostVouching)
      → IsSound h.entries
      → IsSound (confirm sign address_of iso host_key host_label id now h).0.entries
  unfolding confirm drop_stale
  confirm-IsSound id now h ok =
      let ok' = drop_stale-IsSound now h.entries ok in
      elim (Option-cases (pending_entry id (drop_stale now h))) [
        | inl gone ↦ subst IsSound (sym (ground (arith, gone))) ok'
        | inr (e, found) ↦
            subst IsSound (sym (ground (arith, found)))
              (vouch_for-IsSound id e by_operator now (drop_stale now h) ok')
      ]

  begin-entries :
      (id : String) (now : ℕ) (h : HostVouching)
      → (begin_enter_pin sign address_of iso host_key host_label id now h).0.entries
        ≡ drop_stale_entries now h.entries
  unfolding begin_enter_pin drop_stale
  begin-entries id now h = ground arith

  finish-IsSound :
      (id guess : String) (begun : Option (Entry × Option RosterEntry)) (now : ℕ) (h : HostVouching)
      → IsSound h.entries
      → IsSound
          (finish_enter_pin sign address_of iso host_key host_label derive id guess begun now
            h).0.entries
  unfolding finish_enter_pin
  finish-IsSound id guess none now h ok = ok
  finish-IsSound id guess (some (e, counted)) now h ok =
      let (roster, result) = finish_check derive e.request.person_key guess counted h.roster in
      elim (Bool-cases (is_pin_ok result)) [
        | inl right ↦
            subst IsSound (sym (ground (arith, right)))
              (vouch_for-IsSound id e by_pin now (record h { roster = roster }) ok)
        | inr wrong ↦ subst IsSound (sym (ground (arith, wrong))) ok
      ]

  take_step-IsSound :
      (step : VouchingStep) (now : ℕ) (h : HostVouching)
      → IsSound h.entries
      → IsSound (take_step step now h).entries
  unfolding take_step
  take_step-IsSound (asks s fresh) now h ok = request-IsSound verify fingerprint h s fresh now ok
  take_step-IsSound (confirms id) now h ok = confirm-IsSound id now h ok
  take_step-IsSound (rejects id) now h ok = reject-IsSound id now h ok
  take_step-IsSound (begins_pin id) now h ok =
      subst IsSound (sym (begin-entries id now h)) (drop_stale-IsSound now h.entries ok)
  take_step-IsSound (finishes_pin id guess begun) now h ok = finish-IsSound id guess begun now h ok

  -- Whatever is asked, confirmed, rejected and guessed, in any order and at any times: if at most
  -- sixteen requests wait, and each device has at most one that waits for one person, then it is so
  -- after each step.
  pub take_steps-IsSound :
      (steps : List (VouchingStep × ℕ)) (h : HostVouching)
      → IsSound h.entries
      → IsSound (take_steps steps h).entries
  unfolding take_steps
  take_steps-IsSound [] h ok = ok
  take_steps-IsSound ((step, now) ∷ steps) h ok =
      take_steps-IsSound steps (take_step step now h) (take_step-IsSound step now h ok)
