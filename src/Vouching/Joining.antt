-- ===== src/Vouching/Joining.antt =====
-- hostVouching.ts: people join the roster, or change what it says of them.
use tapes_monorepo.Base.{
  ℕ, String, Bool, true, false, not, ◌&&◌, [], ◌≢◌, inl, inr, Option, none, some, ◌≡◌, refl, ◌∙◌,
  arith, eq_iff, if◌then◌else◌, text_eq, nat_eq, ◌==◌, ==_refl, Option-cases,
}
use tapes_monorepo.Statements.{
  JoinRequest, Payload, Signed, Problem, check_device_certificate, check_join_request, passes,
  fails,
}
use tapes_monorepo.Roster.{
  RosterEntry, Roster, find_person, put_person, update_person, find_person-put, find_person-key,
  is_valid_pin, hash_pin,
}
use tapes_monorepo.Challenges.{ChallengeStore, consume}

pub data JoinResult : Type 0 where
  joined bad_name bad_pin_text stale certificate_mismatch : JoinResult
  bad_join : Problem → JoinResult

-- The `pin` of a join: left out, `null`, or a text.
pub data PinChoice : Type 0 where
  keeps_pin removes_pin : PinChoice
  sets_pin : String → PinChoice

abbrev pub is_good_choice : PinChoice → Bool
is_good_choice (sets_pin p) = is_valid_pin p
is_good_choice _ = true

-- `sanitize` is `sanitizeLabel`, `derive` is PBKDF2, and `address_of` hashes a statement's bytes.
module _ (verify : String → Payload → String → Bool) (address_of : Signed → String)
    (sanitize : String → Option String) (derive : String → String → ℕ → String) where
  -- the change of the write for someone who is on the roster
  abbrev pub rejoined : String → String → PinChoice → RosterEntry → RosterEntry
  rejoined salt name keeps_pin e = record e { name = name }
  rejoined salt name removes_pin e = record e { name = name; pin = none; pin_failures = none }
  rejoined salt name (sets_pin p) e = record e {
    name = name;
    pin = some (hash_pin derive salt p);
    pin_failures = none;
  }

  abbrev rejoin : String → String → PinChoice → RosterEntry → Option RosterEntry
  rejoin salt name choice e = some (rejoined salt name choice e)

  rejoined-key :
      (salt name : String) (choice : PinChoice) (e : RosterEntry)
      → (rejoined salt name choice e).person_key ≡ e.person_key
  rejoined-key salt name keeps_pin e = refl
  rejoined-key salt name removes_pin e = refl
  rejoined-key salt name (sets_pin p) e = refl

  -- the entry of someone new
  abbrev pub newcomer : String → String → PinChoice → JoinRequest → Signed → String → RosterEntry
  newcomer salt name choice r certificate stamp = record {
    person_key = r.person_key;
    name = name;
    first_certificate = (r.certificate, certificate);
    pin = elim choice [ sets_pin p ↦ some (hash_pin derive salt p) | _ ↦ none ];
    pin_failures = none;
    vouches = [];
    passkey_records = [];
    joined_at = stamp;
  }

  -- the writes of `join`, behind its checks
  unfoldable pub add_or_rename :
      String → String → PinChoice → JoinRequest → Signed → String → Roster → Roster
  add_or_rename salt name choice r certificate stamp roster =
      elim (find_person r.person_key roster) [
        | none ↦ put_person (newcomer salt name choice r certificate stamp) roster
        | some e ↦ (update_person r.person_key (rejoin salt name choice) roster).0
      ]

  abbrev is_for : JoinRequest → Signed → Bool
  is_for r certificate = elim (check_device_certificate verify certificate) [
    | fails p ↦ false
    | passes c ↦ c.person_key == r.person_key && address_of certificate == r.certificate
  ]

  -- `join`: the challenge is used up by the time that a later check fails
  unfoldable pub join :
      ℕ
      → Signed
      → Signed
      → PinChoice
      → String
      → String
      → ℕ
      → Roster × ChallengeStore
      → (Roster × ChallengeStore) × JoinResult
  unfolding consume add_or_rename
  join ttl_ms signed certificate choice salt stamp now (roster, challenges) =
      elim (check_join_request verify signed) [
        | fails problem ↦ ((roster, challenges), bad_join problem)
        | passes r ↦
            let (left, fresh) = consume ttl_ms r.challenge now challenges in
            if not fresh
            then ((roster, left), stale)
            else if not (is_for r certificate)
            then ((roster, left), certificate_mismatch)
            else elim (sanitize r.person_name) [
              | none ↦ ((roster, left), bad_name)
              | some name ↦
                  if not (is_good_choice choice)
                  then ((roster, left), bad_pin_text)
                  else ((add_or_rename salt name choice r certificate stamp roster, left), joined)
            ]
      ]

  -- A join that succeeds puts its signer on the roster under the name of the join. Someone who was
  -- there keeps the first certificate, the vouches, the passkey records and, if the join says nothing
  -- of it, the PIN with its count of wrong guesses. Nobody else's entry changes.
  pub add_or_rename_lem :
      (salt name : String) (choice : PinChoice) (r : JoinRequest) (certificate : Signed)
      (stamp bystander : String) (roster : Roster)
      → let after = add_or_rename salt name choice r certificate stamp roster in
        (find_person r.person_key after ≡ elim (find_person r.person_key roster) [
          | none ↦ some (newcomer salt name choice r certificate stamp)
          | some e ↦ some (rejoined salt name choice e)
        ])
        × (r.person_key ≢ bystander → find_person bystander after ≡ find_person bystander roster)
  unfolding add_or_rename update_person
  add_or_rename_lem salt name choice r certificate stamp bystander roster =
      elim (Option-cases (find_person r.person_key roster)) [
        | inl absent ↦
            let new = newcomer salt name choice r certificate stamp in
            (
              ground (arith, absent, ==_refl r.person_key, find_person-put r.person_key new roster),
              λ differ. ground (
                arith,
                absent,
                differ,
                eq_iff r.person_key bystander,
                find_person-put bystander new roster,
              ),
            )
        | inr (e, known) ↦
            let next = rejoined salt name choice e in
            let keyed =
              rejoined-key salt name choice e ∙ find_person-key r.person_key roster e known in
            (
              ground (
                arith,
                known,
                keyed,
                ==_refl r.person_key,
                find_person-put r.person_key next roster,
              ),
              λ differ. ground (
                arith,
                known,
                keyed,
                differ,
                eq_iff r.person_key bystander,
                find_person-put bystander next roster,
              ),
            )
      ]
