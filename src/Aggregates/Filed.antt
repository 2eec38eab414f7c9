-- ===== src/Aggregates/Filed.antt =====
-- aggregates.ts: what the baseline file gives back of the totals that were written to it.
use tapes_monorepo.Base.{
  if◌then◌else◌, Bool, ℕ, ◌+◌, String, Bool, true, false, ◌||◌, List, [], ◌∷◌, inl, inr, ◌≡◌, refl,
  arith, eq_iff, nat_beq_iff, text_eq, nat_eq, ◌==◌, Bool-cases, list_eq, any, includes, add,
  includes-add, get, set, Float, clamp_finite, subst, sym,
}
use tapes_monorepo.EventStore.{StoredEvent, Segment}
use tapes_monorepo.Aggregates.{
  is_kept, Totals, fold, Rollup, totals_of, fold_events, read_entries, add_names, plays,
  AggregateStore, read_baseline, write_baseline,
}
use tapes_monorepo.Aggregates.Counts.{weight, weight-set, live_plays}

module _ (f : Float) where
  open f use {Num, zero_num, plus, is_finite}

  abbrev pub has_key : String → Rollup f → Bool
  has_key k = any (λ (j, totals). j == k)

  -- Totals with finite sums, under keys that differ.
  abbrev pub IsSound : Rollup f → Type 0
  IsSound [] = Unit {0}
  IsSound ((k, t) ∷ m) = (is_finite t.completion_sum ≡ true) × (has_key k m ≡ false) × IsSound m

  has_key-set :
      (j k : String) (t : Totals f) (m : Rollup f)
      → has_key j (set k t m) ≡ (has_key j m || (k == j))
  unfolding set
  has_key-set j k t [] = ground arith
  has_key-set j k t ((i, w) ∷ m) = ground (arith, has_key-set j k t m, eq_iff i k)

  IsSound-set :
      (k : String) (t : Totals f) (m : Rollup f)
      → is_finite t.completion_sum ≡ true
      → IsSound m
      → IsSound (set k t m)
  unfolding set
  IsSound-set k t [] finite h = (finite, refl, tt)
  IsSound-set k t ((i, w) ∷ m) finite h =
      let Goal : Bool → Type 0 = λ b. IsSound (if b then (i, t) ∷ m else (i, w) ∷ set k t m) in
      elim (Bool-cases (i == k)) [
        | inl same ↦ subst Goal (sym same) (finite, h.1, h.2)
        | inr differs ↦ subst Goal (sym differs) (
          h.0,
          ground (arith, differs, h.1, has_key-set i k t m, eq_iff i k, eq_iff k i),
          IsSound-set k t m finite h.2,
        )
      ]

  pub read_entries-IsSound : (entries m : Rollup f) → IsSound m → IsSound (read_entries f entries m)
  unfolding read_entries
  read_entries-IsSound [] m h = h
  read_entries-IsSound ((k, t) ∷ entries) m h =
      let Goal : Bool → Type 0 =
        λ b. IsSound (read_entries f entries (if b then set k t m else m)) in
      elim (Bool-cases (is_kept f (k, t))) [
        | inl kept ↦
            subst Goal (sym kept) (
              read_entries-IsSound entries (set k t m) (IsSound-set k t m (ground (arith, kept)) h))
        | inr dropped ↦ subst Goal (sym dropped) (read_entries-IsSound entries m h)
      ]

  plays-absent : (k : String) (m : Rollup f) → has_key k m ≡ false → plays f k m ≡ 0
  unfolding get
  plays-absent k [] h = refl
  plays-absent k ((i, w) ∷ m) h = ground (arith, h, plays-absent k m)

  abbrev Apart : Rollup f → Rollup f → Type 0
  Apart acc [] = Unit {0}
  Apart acc ((k, t) ∷ m) = (has_key k acc ≡ false) × Apart acc m

  Apart-nil : (m : Rollup f) → Apart [] m
  Apart-nil [] = tt
  Apart-nil ((k, t) ∷ m) = (refl, Apart-nil m)

  Apart-set :
      (k : String) (t : Totals f) (acc m : Rollup f)
      → has_key k m ≡ false
      → Apart acc m
      → Apart (set k t acc) m
  Apart-set k t acc [] h ok = tt
  Apart-set k t acc ((j, w) ∷ m) h ok = (
    ground (arith, h, ok.0, has_key-set j k t acc, eq_iff j k, eq_iff k j),
    Apart-set k t acc m (ground (arith, h)) ok.1,
  )

  weight-read_entries :
      (url : String) (m acc : Rollup f)
      → (url == "") ≡ false
      → IsSound m
      → Apart acc m
      → weight f url (read_entries f m acc) ≡ weight f url m + weight f url acc
  unfolding read_entries weight
  weight-read_entries url [] acc named h ok = omega arith
  weight-read_entries url ((k, t) ∷ m) acc named h ok = elim (Bool-cases (k == "")) [
    | inl empty ↦ ground (
      arith,
      empty,
      named,
      weight-read_entries url m acc named h.2 ok.1,
      eq_iff k url,
      eq_iff k "",
      eq_iff url "",
    )
    | inr full ↦ ground (
      arith,
      full,
      h.0,
      weight-read_entries url m (set k t acc) named h.2 (Apart-set k t acc m h.1 ok.1),
      weight-set f url k t acc,
      plays-absent k acc ok.0,
    )
  ]

  pub includes-add_names :
      (d : ℕ) (days names : List ℕ)
      → includes (add_names f days names) d ≡ (includes names d || includes days d)
  unfolding add_names
  includes-add_names d [] names = ground arith
  includes-add_names d (e ∷ days) names = ground (
    arith,
    includes-add_names d days (add names e),
    includes-add names e d,
    nat_beq_iff e d,
    nat_beq_iff d e,
  )

  pub live_plays-same :
      (url : String) (folded names : List ℕ) (disk : List (Segment Num))
      → ((d : ℕ) → includes folded d ≡ includes names d)
      → live_plays f url folded disk ≡ live_plays f url names disk
  unfolding live_plays
  live_plays-same url folded names [] h = refl
  live_plays-same url folded names (s ∷ disk) h =
      ground (arith, h s.day, live_plays-same url folded names disk h)

  abbrev pub filed_plays : String → AggregateStore f → List (Segment Num) → ℕ
  filed_plays url a disk =
      let read = read_baseline f a in
      weight f url read.baseline + live_plays f url read.folded_segments disk

  -- A baseline that has just been written is read back with the plays that memory has.
  pub filed_plays-write :
      (url : String) (a : AggregateStore f) (disk : List (Segment Num))
      → (url == "") ≡ false
      → IsSound a.baseline
      → filed_plays url (write_baseline f a true) disk
        ≡ weight f url a.baseline + live_plays f url a.folded_segments disk
  unfolding read_baseline write_baseline weight
  filed_plays-write url a disk named sound = omega (
    arith,
    weight-read_entries url a.baseline [] named sound (Apart-nil a.baseline),
    live_plays-same url (add_names f a.folded_segments []) a.folded_segments disk
        (λ d. includes-add_names d a.folded_segments []),
  )

  module _ (zero_is_finite : is_finite zero_num ≡ true)
      (plus_is_finite : (x y : Num)
        → is_finite x ≡ true
        → is_finite (plus x (clamp_finite f y)) ≡ true) where
    totals_of-finite :
        (k : String) (m : Rollup f) → IsSound m → is_finite (totals_of f k m).completion_sum ≡ true
    unfolding get
    totals_of-finite k [] h = zero_is_finite
    totals_of-finite k ((i, w) ∷ m) h = ground (arith, h.0, totals_of-finite k m h.2)

    pub fold_events-IsSound :
        (es : List (StoredEvent Num)) (m : Rollup f) → IsSound m → IsSound (fold_events f es m)
    unfolding fold_events fold
    fold_events-IsSound [] m h = h
    fold_events-IsSound (e ∷ es) m h =
        let k = e.recording_url in
        fold_events-IsSound es (set k (fold f (totals_of f k m) e) m) (
          IsSound-set k (fold f (totals_of f k m) e) m
            (plus_is_finite (totals_of f k m).completion_sum e.completion (totals_of-finite k m h))
            h)
