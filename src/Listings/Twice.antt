-- ===== src/Listings/Twice.antt =====
-- sessionDelivery.ts, run again.
use tapes_monorepo.Base.{
  String, Bool, true, false, not, List, [], ◌∷◌, ◌++◌, inl, inr, Option, none, some, ◌≡◌, refl, ap,
  arith, eq_iff, if◌then◌else◌, text_eq, nat_eq, ◌==◌, ==_refl, Bool-cases, is_some, or_else,
  list_eq, any, all, any-append, includes, includes-append, get, get-set,
}
use tapes_monorepo.Listings.{
  Docs, push_statement, open_statements, visit_for_record, list_session_record,
}
use tapes_monorepo.Listings.Loop.{visit_all-settles, visit_all-twice}

-- What a visit says of a recording that it leaves as it is, and nothing of one that it pushes to.
abbrev pub standing : (String → Bool) → (List String → Bool) → String → String → Docs → Option Bool
standing opens covers address url docs = elim (open_statements opens url docs) [
  | none ↦ some false
  | some statements ↦
      if not (covers statements)
      then some false
      else if includes statements address
      then some true
      else none
]

module _ (opens : String → Bool) (covers : List String → Bool) (address : String)
    (grows : (statements : List String)
      → covers statements ≡ true
      → covers (statements ++ address ∷ []) ≡ true) where
  pub standing-pushed :
      (url : String) (docs : Docs)
      → standing opens covers address url docs ≡ none
      → standing opens covers address url (push_statement url address docs) ≡ some true
  unfolding push_statement
  standing-pushed url docs h =
      let statements = or_else (get url docs) [] in
      ground (
        arith,
        h,
        get-set url url (statements ++ address ∷ []) docs,
        ==_refl url,
        ==_refl address,
        grows statements,
        includes-append statements (address ∷ []) address,
      )

  pub standing-push :
      (u url : String) (b : Bool) (docs : Docs)
      → standing opens covers address u docs ≡ some b
      → standing opens covers address url docs ≡ none
      → standing opens covers address u (push_statement url address docs) ≡ some b
  unfolding push_statement
  standing-push u url b docs h due =
      let statements = or_else (get url docs) [] in
      ground (
        arith,
        h,
        due,
        get-set url u (statements ++ address ∷ []) docs,
        eq_iff url u,
        ap (λ x. standing opens covers address x docs),
      )

-- whether every recording of a root document lists the statement, where it opens and is covered
abbrev pub are_listed :
    (String → Bool) → (List String → Bool) → String → List (Option String) → Docs → Bool
are_listed opens covers address entries docs =
    all (λ e. elim e [ none ↦ true | some url ↦ is_some (standing opens covers address url docs) ])
      entries

any_none :
    (claims statements : List String)
    → (claims == []) ≡ true
    → any (includes claims) statements ≡ false
any_none [] [] h = refl
any_none [] (s ∷ statements) h = any_none [] statements h
any_none (c ∷ claims) statements h = absurd (ground (arith, h))

module _ (opens : String → Bool) (record_hash : String) (claims : List String) where
  abbrev pub is_covered : List String → Bool
  is_covered = any (includes claims)

  is_covered-grows :
      (statements : List String)
      → is_covered statements ≡ true
      → is_covered (statements ++ record_hash ∷ []) ≡ true
  is_covered-grows statements h =
      ground (arith, h, any-append (includes claims) statements (record_hash ∷ []))

  record_rests :
      (u : String) (b : Bool) (docs : Docs)
      → standing opens is_covered record_hash u docs ≡ some b
      → visit_for_record opens record_hash claims u docs ≡ (docs, b)
  unfolding visit_for_record
  record_rests u b docs h = ground (arith, h)

  record_settles :
      (u : String) (docs : Docs)
      → let (after, listed) = visit_for_record opens record_hash claims u docs in
        standing opens is_covered record_hash u after ≡ some listed
  unfolding visit_for_record
  record_settles u docs =
      ground (arith, standing-pushed opens is_covered record_hash is_covered-grows u docs)

  record_keeps :
      (u url : String) (b : Bool) (docs : Docs)
      → standing opens is_covered record_hash u docs ≡ some b
      → standing opens is_covered record_hash u
          (visit_for_record opens record_hash claims url docs).0
        ≡ some b
  unfolding visit_for_record
  record_keeps u url b docs h =
      ground (arith, h, standing-push opens is_covered record_hash is_covered-grows u url b docs)

  none_covered :
      (entries : List (Option String)) (docs : Docs)
      → (claims == []) ≡ true
      → are_listed opens is_covered record_hash entries docs ≡ true
  none_covered [] docs h = refl
  none_covered (none ∷ entries) docs h = none_covered entries docs h
  none_covered (some url ∷ entries) docs h =
      ground (arith, none_covered entries docs h, any_none claims (or_else (get url docs) []) h)

  -- After a session record is listed, every recording that opens and lists one of the record's claims
  -- lists the record. Listing it again changes nothing and reports the same recordings.
  pub list_session_record_lem :
      (entries : List (Option String)) (docs : Docs)
      → let (after, listed) = list_session_record opens record_hash claims (some entries) docs in
        (are_listed opens is_covered record_hash entries after ≡ true)
        × (list_session_record opens record_hash claims (some entries) after ≡ (after, listed))
  unfolding list_session_record
  list_session_record_lem entries docs =
      let visit = visit_for_record opens record_hash claims in
      let Settled : String → Bool → Docs → Type 0 =
        λ u b s. standing opens is_covered record_hash u s ≡ some b in
      let keeps : (u url : String) (b : Bool) (s : Docs)
          → Settled u b s
          → Settled u b (visit url s).0 =
        record_keeps in
      let all_listed =
        visit_all-settles visit Settled record_rests record_settles keeps
          (λ u s. is_some (standing opens is_covered record_hash u s))
          (λ u b s h. ground (arith, h)) entries docs in
      let again = visit_all-twice visit Settled record_rests record_settles keeps entries docs in
      elim (Bool-cases (claims == [])) [
        | inr some_claims ↦ ground (arith, some_claims, all_listed, again)
        | inl no_claims ↦ ground (arith, no_claims, none_covered entries docs no_claims)
      ]
