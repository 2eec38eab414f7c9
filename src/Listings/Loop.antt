-- ===== src/Listings/Loop.antt =====
-- The loop that lists a statement on recordings: what every visit keeps, and two runs.
use tapes_monorepo.Base.{
  String, Bool, true, List, [], ◌∷◌, inl, inr, Option, none, some, ◌≡◌, refl, sym, subst, arith,
  if◌then◌else◌, text_eq, nat_eq, Bool-cases, list_eq, all, All,
}
use tapes_monorepo.Listings.{visit_all}

module _ {ℓ} {S : Type ℓ} (visit : String → S → S × Bool) where
  pub visit_all-keeps :
      (P : String → S → Type 0)
      → ((u url : String) (s : S) → P u s → P u (visit url s).0)
      → (u : String) (entries : List (Option String)) (s : S) → P u s
      → P u (visit_all visit entries s).0
  unfolding visit_all
  visit_all-keeps P keeps u [] s h = h
  visit_all-keeps P keeps u (none ∷ entries) s h = visit_all-keeps P keeps u entries s h
  visit_all-keeps P keeps u (some url ∷ entries) s h =
      visit_all-keeps P keeps u entries (visit url s).0 (keeps u url s h)

  module _ (P : String → S → Type 0)
      (does : (url : String) (s : S) → (visit url s).1 ≡ true → P url (visit url s).0)
      (keeps : (u url : String) (s : S) → P u s → P u (visit url s).0) where
    pub visit_all-All :
        (entries : List (Option String)) (s : S)
        → let (after, listed) = visit_all visit entries s in All (λ u. P u after) listed
    unfolding visit_all
    visit_all-All [] s = tt
    visit_all-All (none ∷ entries) s = visit_all-All entries s
    visit_all-All (some url ∷ entries) s =
        let next = (visit url s).0 in
        let rest = visit_all visit entries next in
        let Holds : Bool → Type 0 =
          λ b. All (λ u. P u rest.0) (if b then url ∷ rest.1 else rest.1) in
        elim (Bool-cases (visit url s).1) [
          | inl lists ↦ subst Holds (sym lists) (
            visit_all-keeps P keeps url entries next (does url s lists),
            visit_all-All entries next,
          )
          | inr passes ↦ subst Holds (sym passes) (visit_all-All entries next)
        ]

  -- `Settled u b s`: a visit of `u` has nothing to do, and says `b`.
  module _ (Settled : String → Bool → S → Type 0)
      (rests : (u : String) (b : Bool) (s : S) → Settled u b s → visit u s ≡ (s, b))
      (settles : (u : String) (s : S) → Settled u (visit u s).1 (visit u s).0)
      (keeps : (u url : String) (b : Bool) (s : S)
        → Settled u b s
        → Settled u b (visit url s).0) where
    pub visit_all-Settled :
        (u : String) (b : Bool) (entries : List (Option String)) (s : S)
        → Settled u b s
        → Settled u b (visit_all visit entries s).0
    unfolding visit_all
    visit_all-Settled u b [] s h = h
    visit_all-Settled u b (none ∷ entries) s h = visit_all-Settled u b entries s h
    visit_all-Settled u b (some url ∷ entries) s h =
        visit_all-Settled u b entries (visit url s).0 (keeps u url b s h)

    -- Once all are visited, each is settled.
    pub visit_all-settles :
        (Test : String → S → Bool)
        → ((u : String) (b : Bool) (s : S) → Settled u b s → Test u s ≡ true)
        → (entries : List (Option String)) (s : S)
        → let after = (visit_all visit entries s).0 in
          all (λ e. elim e [ none ↦ true | some url ↦ Test url after ]) entries ≡ true
    unfolding visit_all
    visit_all-settles Test tests [] s = refl
    visit_all-settles Test tests (none ∷ entries) s = visit_all-settles Test tests entries s
    visit_all-settles Test tests (some url ∷ entries) s =
        let (next, lists) = visit url s in
        let after = (visit_all visit entries next).0 in
        let settled = visit_all-Settled url lists entries next (settles url s) in
        ground (arith, tests url lists after settled, visit_all-settles Test tests entries next)

    pub visit_all-twice :
        (entries : List (Option String)) (s : S)
        → visit_all visit entries (visit_all visit entries s).0 ≡ visit_all visit entries s
    unfolding visit_all
    visit_all-twice [] s = refl
    visit_all-twice (none ∷ entries) s = visit_all-twice entries s
    visit_all-twice (some url ∷ entries) s =
        let (next, lists) = visit url s in
        let after = (visit_all visit entries next).0 in
        let again : visit url after ≡ (after, lists) =
          rests url lists after (visit_all-Settled url lists entries next (settles url s)) in
        let rest = visit_all-twice entries next in rw again (rw rest refl)
