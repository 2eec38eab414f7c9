-- ===== src/Vouching/Withdrawal.antt =====
-- hostVouching.ts: a vouch that the operator withdraws.
use tapes_monorepo.Base.{
  ℕ, String, Bool, true, not, ◌&&◌, ◌||◌, List, [], ◌∷◌, ◌++◌, map, Option, none, some, ◌≡◌, arith,
  text_eq, nat_eq, ◌==◌, ==_refl, is_some, list_eq, filter, any, all, find, any-append,
}
use tapes_monorepo.Statements.{Payload, Signed, a_revocation}
use tapes_monorepo.Roster.{
  SignedVouch, RosterEntry, Roster, find_person, put_person, update_person, is_revoked_device_key,
}
use tapes_monorepo.Vouching.{}
use tapes_monorepo.Vouching.Vouches.{
  vouch_at, find_vouch, signed_vouch_state, mark_revoked, signed, create_device_revocation,
  revoke_vouch, revoked, already_revoked, withdrawn,
}

find-marked :
    (address at revocation : String) (vs : List SignedVouch) (v : SignedVouch)
    → find (λ each. each.address == address) vs ≡ some v
    → find (λ each. each.address == address) (map (mark_revoked address at revocation) vs)
      ≡ some (record v { revoked_at = some at; revocation = some revocation })
find-marked address at revocation [] v h = absurd (ground (arith, h))
find-marked address at revocation (w ∷ vs) v h =
    ground (arith, h, find-marked address at revocation vs v)

any-marked :
    (address at revocation : String) (vs : List SignedVouch) (v : SignedVouch)
    → find (λ each. each.address == address) vs ≡ some v
    → any
        (λ each. each.device_key == v.device_key && is_some each.revoked_at)
        (map (mark_revoked address at revocation) vs)
      ≡ true
any-marked address at revocation [] v h = absurd (ground (arith, h))
any-marked address at revocation (w ∷ vs) v h =
    ground (arith, h, ==_refl v.device_key, any-marked address at revocation vs v)

-- Only the person with the key holds a vouch at the address.
abbrev pub is_sole : String → String → Roster → Bool
is_sole key address =
    all (λ person. person.person_key == key || not (is_some (vouch_at address person)))

find_vouch-others :
    (key address : String) (roster : Roster) (person : RosterEntry)
    → is_sole key address roster ≡ true
    → find_vouch address (filter (λ each. not (each.person_key == key)) roster ++ person ∷ [])
      ≡ elim (vouch_at address person) [ none ↦ none | some v ↦ some (person, v) ]
unfolding find_vouch
find_vouch-others key address [] person sole = ground arith
find_vouch-others key address (p ∷ ps) person sole =
    ground (arith, sole, find_vouch-others key address ps person)

find_vouch-vouch_at :
    (address : String) (roster : Roster) (person : RosterEntry) (v : SignedVouch)
    → find_vouch address roster ≡ some (person, v)
    → vouch_at address person ≡ some v
unfolding find_vouch
find_vouch-vouch_at address [] person v h = absurd (ground (arith, h))
find_vouch-vouch_at address (p ∷ ps) person v h =
    ground (arith, h, find_vouch-vouch_at address ps person v)

module _ (sign : Payload → String) (address_of : Signed → String) (iso : ℕ → String)
    (host_key host_label : String) where
  module _ (now : ℕ) (address : String) (listed_on : List String) (roster : Roster)
      (person : RosterEntry) (v : SignedVouch) where
    abbrev pub withdrawal : String
    withdrawal = address_of (
        signed sign address_of iso host_key host_label (
          a_revocation
            (create_device_revocation sign address_of iso host_key host_label true v now)))

    -- A revocation that is delivered withdraws the vouch: from then on the host reports it as
    -- withdrawn, with the time and the address of the revocation, refuses to revoke it again, and
    -- takes the key of the device for revoked when it asks to sync. The vouch was not revoked before, and no one else on the roster holds it.
    pub revoke_vouch_lem :
        find_vouch address roster ≡ some (person, v)
        → find_person person.person_key roster ≡ some person
        → is_sole person.person_key address roster ≡ true
        → v.revoked_at ≡ none
        → (later : ℕ) (delivered : Option (List String))
        → let (after, result) =
            revoke_vouch sign address_of iso host_key host_label true address now
              (some listed_on)
              roster in
          (result ≡ some (revoked withdrawal listed_on))
          × (signed_vouch_state address after ≡ some (withdrawn (iso now) (some withdrawal)))
          × (revoke_vouch sign address_of iso host_key host_label true address later delivered after
              ≡ (after, some already_revoked))
          × (is_revoked_device_key v.device_key after ≡ true)
    unfolding revoke_vouch update_person signed_vouch_state put_person create_device_revocation
        is_revoked_device_key
    revoke_vouch_lem found known sole unrevoked later delivered =
        let marked : RosterEntry = record person {
          vouches = map (mark_revoked address (iso now) withdrawal) person.vouches;
        } in
        let held = find_vouch-vouch_at address roster person v found in
        let at_marked = find-marked address (iso now) withdrawal person.vouches v held in
        let marks = any-marked address (iso now) withdrawal person.vouches v held in
        let others = find_vouch-others person.person_key address roster marked sole in
        (
          ground (arith, found, unrevoked),
          ground (arith, found, known, unrevoked, at_marked, others),
          ground (arith, found, known, unrevoked, at_marked, others),
          ground (
            arith,
            found,
            known,
            unrevoked,
            marks,
            any-append
                (λ p.
                  any (λ each. each.device_key == v.device_key && is_some each.revoked_at)
                    p.vouches)
                (filter (λ each. not (each.person_key == person.person_key)) roster) (marked ∷ []),
          ),
        )
