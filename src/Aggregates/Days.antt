-- ===== src/Aggregates/Days.antt =====
-- The names of the segments on the disk, and how aggregates.ts skips those it has folded.
use tapes_monorepo.Base.{
  ℕ, ◌+◌, String, Bool, false, ◌||◌, List, [], ◌∷◌, ◌++◌, ◌≡◌, refl, ◌∙◌, ap, arith, nat_beq_iff,
  ◌==◌, nat_eq, text_eq, All, add, without, includes-add, includes-without, Float,
}
use tapes_monorepo.EventStore.{Segment}
use tapes_monorepo.Aggregates.{drop_names}
use tapes_monorepo.Aggregates.Counts.{live_plays}

module _ {N : Type 0} where
  unfoldable pub has_day : ℕ → List (Segment N) → Bool
  has_day day [] = false
  has_day day (s ∷ disk) = s.day == day || has_day day disk

  -- No two segments have one name.
  abbrev pub DistinctDays : List (Segment N) → Type 0
  DistinctDays [] = Unit
  DistinctDays (s ∷ disk) = (has_day s.day disk ≡ false) × DistinctDays disk

  abbrev pub ApartFrom : List (Segment N) → List ℕ → Type 0
  ApartFrom disk = All (λ day. has_day day disk ≡ false)

  abbrev pub days : List (Segment N) → List ℕ
  days [] = []
  days (s ∷ disk) = s.day ∷ days disk

  pub days-append : (xs ys : List (Segment N)) → days (xs ++ ys) ≡ days xs ++ days ys
  days-append [] ys = refl
  days-append (x ∷ xs) ys = ap (◌∷◌ x.day) (days-append xs ys)

  pub has_day-append :
      (day : ℕ) (xs ys : List (Segment N))
      → has_day day (xs ++ ys) ≡ (has_day day xs || has_day day ys)
  unfolding has_day
  has_day-append day [] ys = refl
  has_day-append day (x ∷ xs) ys = ground (arith, has_day-append day xs ys)

  -- Where the first of the rest goes, the days before it stay apart from what is left.
  pub ApartFrom-tail :
      (s : Segment N) (rest : List (Segment N)) (ds : List ℕ)
      → ApartFrom (s ∷ rest) ds
      → ApartFrom rest ds
  unfolding has_day
  ApartFrom-tail s rest [] h = tt
  ApartFrom-tail s rest (d ∷ ds) h = (ground (arith, h.0), ApartFrom-tail s rest ds h.1)

  pub ApartFrom-snoc :
      (s : Segment N) (rest kept : List (Segment N)) (ds : List ℕ)
      → ApartFrom (s ∷ rest) ds
      → ApartFrom kept ds
      → ApartFrom (kept ++ s ∷ []) ds
  unfolding has_day
  ApartFrom-snoc s rest kept [] h k = tt
  ApartFrom-snoc s rest kept (d ∷ ds) h k = (
    ground (arith, h.0, k.0, has_day-append d kept (s ∷ [])),
    ApartFrom-snoc s rest kept ds h.1 k.1,
  )

  pub has_day-ApartFrom :
      (s : Segment N) (rest kept : List (Segment N))
      → ApartFrom (s ∷ rest) (days kept)
      → has_day s.day kept ≡ false
  unfolding has_day
  has_day-ApartFrom s rest [] h = refl
  has_day-ApartFrom s rest (t ∷ kept) h = ground (arith, h.0, has_day-ApartFrom s rest kept h.1)

module _ (f : Float) where
  open f use {Num}

  pub live_plays-append :
      (url : String) (folded : List ℕ) (xs ys : List (Segment Num))
      → live_plays f url folded (xs ++ ys) ≡ live_plays f url folded xs + live_plays f url folded ys
  unfolding live_plays
  live_plays-append url folded [] ys = omega arith
  live_plays-append url folded (x ∷ xs) ys = omega (arith, live_plays-append url folded xs ys)

  -- A name that no segment has makes no difference, in the set of folded names or out of it.
  pub live_plays-add :
      (url : String) (folded : List ℕ) (day : ℕ) (disk : List (Segment Num))
      → has_day day disk ≡ false
      → live_plays f url (add folded day) disk ≡ live_plays f url folded disk
  unfolding live_plays has_day
  live_plays-add url folded day [] h = refl
  live_plays-add url folded day (s ∷ disk) h = ground (
    arith,
    live_plays-add url folded day disk,
    includes-add folded day s.day,
    nat_beq_iff day s.day,
    nat_beq_iff s.day day,
  )

  live_plays-without :
      (url : String) (folded : List ℕ) (day : ℕ) (disk : List (Segment Num))
      → has_day day disk ≡ false
      → live_plays f url (without day folded) disk ≡ live_plays f url folded disk
  unfolding live_plays has_day
  live_plays-without url folded day [] h = refl
  live_plays-without url folded day (s ∷ disk) h = ground (
    arith,
    live_plays-without url folded day disk,
    includes-without day s.day folded,
    nat_beq_iff day s.day,
    nat_beq_iff s.day day,
  )

  pub live_plays-drop_names :
      (url : String) (removed folded : List ℕ) (disk : List (Segment Num))
      → ApartFrom disk removed
      → live_plays f url (drop_names f removed folded) disk ≡ live_plays f url folded disk
  unfolding drop_names
  live_plays-drop_names url [] folded disk h = refl
  live_plays-drop_names url (day ∷ removed) folded disk h =
      live_plays-drop_names url removed (without day folded) disk h.1
      ∙ live_plays-without url folded day disk h.0
