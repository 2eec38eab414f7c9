-- ===== src/Listings/Revoked.antt =====
-- deviceRevocation.ts (packages/core/app): the recordings that list a person's revocation.
use tapes_monorepo.Listings.{Docs, push_statement, visit_all, visit_for_device, revoke_device}
use tapes_monorepo.Listings.Loop.{visit_all-keeps, visit_all-All, visit_all-settles}
use tapes_monorepo.Listings.Delivered.{lists, push-lists}
use tapes_monorepo.Listings.Twice.{standing, standing-pushed, standing-push, are_listed}
use tapes_monorepo.Base.{
  String, Bool, true, List, [], ◌∷◌, ◌++◌, Option, some, ◌≡◌, refl, arith, eq_iff, text_eq, nat_eq,
  is_some, or_else, list_eq, All, includes, includes-append, get, get-set,
}

module _ {S : Type 0} (opens : String → Bool) (copy_revocation : String → String → S → S × Bool)
    (device_link address : String) where
  device_lists :
      (url : String) (s : Docs × S)
      → (visit_for_device opens copy_revocation device_link address url s).1 ≡ true
      → lists url address (visit_for_device opens copy_revocation device_link address url s).0.0
        ≡ true
  unfolding visit_for_device
  device_lists url (docs, hosts) listed = ground (arith, listed, push-lists url address docs)

  device_keeps_lists :
      (listed_before u url : String) (s : Docs × S)
      → lists u listed_before s.0 ≡ true
      → lists u listed_before (visit_for_device opens copy_revocation device_link address url s).0.0
        ≡ true
  unfolding visit_for_device push_statement
  device_keeps_lists listed_before u url (docs, hosts) h =
      let statements = or_else (get url docs) [] in
      ground (
        arith,
        h,
        get-set url u (statements ++ address ∷ []) docs,
        eq_iff url u,
        includes-append statements (address ∷ []) listed_before,
      )

abbrev pub has_link : String → List String → Bool
has_link device_link statements = includes statements device_link

has_link-grows :
    (device_link address : String) (statements : List String)
    → has_link device_link statements ≡ true
    → has_link device_link (statements ++ address ∷ []) ≡ true
has_link-grows device_link address statements h =
    ground (arith, h, includes-append statements (address ∷ []) device_link)

module _ {S : Type 0} (opens : String → Bool) (copy_revocation : String → String → S → S × Bool)
    (device_link address : String)
    (takes : (url : String) (hosts : S) → (copy_revocation address url hosts).1 ≡ true) where
  device_rests :
      (u : String) (b : Bool) (s : Docs × S)
      → standing opens (has_link device_link) address u s.0 ≡ some b
      → visit_for_device opens copy_revocation device_link address u s ≡ (s, b)
  unfolding visit_for_device
  device_rests u b s h = ground (arith, h)

  device_settles :
      (u : String) (s : Docs × S)
      → let (after, listed) = visit_for_device opens copy_revocation device_link address u s in
        standing opens (has_link device_link) address u after.0 ≡ some listed
  unfolding visit_for_device
  device_settles u s = ground (
    arith,
    takes u s.1,
    standing-pushed opens (has_link device_link) address (has_link-grows device_link address) u s.0,
  )

  device_keeps :
      (u url : String) (b : Bool) (s : Docs × S)
      → standing opens (has_link device_link) address u s.0 ≡ some b
      → standing opens
          (has_link device_link)
          address
          u
          (visit_for_device opens copy_revocation device_link address url s).0.0
        ≡ some b
  unfolding visit_for_device
  device_keeps u url b s h = ground (
    arith,
    h,
    takes url s.1,
    standing-push opens (has_link device_link) address (has_link-grows device_link address) u url b
        s.0,
  )

  -- Where for each recording some host takes the revocation that the call signs, every recording that
  -- opens and lists the certificate or vouch lists that revocation after the call, and so does each
  -- recording that the result reports. A statement that a recording listed before, such as an earlier
  -- revocation of the device, is still listed.
  pub revoke_device_lem :
      (entries : List (Option String)) (docs : Docs) (hosts : S)
      → let (after, result) =
          revoke_device opens copy_revocation device_link
            (some address)
            (some entries)
            (docs, hosts) in
        (are_listed opens (has_link device_link) address entries after.0 ≡ true)
        × ((urls : List String) × (result ≡ some (address, urls))
            × All (λ url. lists url address after.0 ≡ true) urls)
        × ((url statement : String)
            → lists url statement docs ≡ true
            → lists url statement after.0 ≡ true)
  unfolding revoke_device
  revoke_device_lem entries docs hosts =
      let visit = visit_for_device opens copy_revocation device_link address in
      let Settled : String → Bool → Docs × S → Type 0 =
        λ u b s. standing opens (has_link device_link) address u s.0 ≡ some b in
      let all_listed =
        visit_all-settles visit Settled device_rests device_settles device_keeps
          (λ u s. is_some (standing opens (has_link device_link) address u s.0))
          (λ u b s h. ground (arith, h)) entries (docs, hosts) in
      (
        all_listed,
        (
          (visit_all visit entries (docs, hosts)).1,
          refl,
          visit_all-All visit (λ url s. lists url address s.0 ≡ true)
              (device_lists opens copy_revocation device_link address)
              (device_keeps_lists opens copy_revocation device_link address address) entries
              (docs, hosts),
        ),
        λ url statement before.
            visit_all-keeps visit (λ u s. lists u statement s.0 ≡ true)
              (device_keeps_lists opens copy_revocation device_link address statement) url entries
              (docs, hosts) before,
      )
