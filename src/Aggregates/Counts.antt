-- ===== src/Aggregates/Counts.antt =====
-- aggregates.ts: how folding and deriving change the plays of one recording.
use tapes_monorepo.Base.{
  ℕ, ◌+◌, String, List, [], ◌∷◌, ◌++◌, ◌≡◌, refl, arith, eq_iff, if◌then◌else◌, ◌==◌, nat_eq,
  text_eq, indicator, includes, get, set, get-nil, get-set, Float,
}
use tapes_monorepo.EventStore.{StoredEvent, Segment, read_segment, replay}
use tapes_monorepo.Aggregates.{
  Totals, fold, Rollup, totals_of, add_totals, seed_rollup, fold_events, AggregateStore,
  live_segments, derive, plays,
}

-- How many events of a list play the recording.
unfoldable pub counted : {N : Type 0} → String → List (StoredEvent N) → ℕ
counted url [] = 0
counted url (e ∷ es) = indicator (e.recording_url == url) + counted url es

pub counted-append :
    {N : Type 0} (url : String) (es fs : List (StoredEvent N))
    → counted url (es ++ fs) ≡ counted url es + counted url fs
unfolding counted
counted-append url [] fs = omega arith
counted-append url (e ∷ es) fs = omega (arith, counted-append url es fs)

module _ (f : Float) where
  open f use {Num}

  -- The plays of all entries of a list that name the recording.
  unfoldable pub weight : String → List (String × Totals f) → ℕ
  weight url [] = 0
  weight url ((k, totals) ∷ m) = (if k == url then totals.plays else 0) + weight url m

  pub weight-set :
      (url k : String) (t : Totals f) (m : Rollup f)
      → weight url (set k t m) + (if k == url then plays f k m else 0)
        ≡ weight url m + (if k == url then t.plays else 0)
  unfolding weight set get
  weight-set url k t [] = ground arith
  weight-set url k t ((j, w) ∷ m) =
      ground (arith, weight-set url k t m, eq_iff j k, eq_iff j url, eq_iff k url)

  pub plays-fold_events :
      (url : String) (es : List (StoredEvent Num)) (m : Rollup f)
      → plays f url (fold_events f es m) ≡ plays f url m + counted url es
  unfolding fold_events counted fold
  plays-fold_events url [] m = omega arith
  plays-fold_events url (e ∷ es) m =
      let t = fold f (totals_of f e.recording_url m) e in
      ground (
        arith,
        plays-fold_events url es (set e.recording_url t m),
        get-set e.recording_url url t m,
        eq_iff e.recording_url url,
      )

  pub weight-fold_events :
      (url : String) (es : List (StoredEvent Num)) (m : Rollup f)
      → weight url (fold_events f es m) ≡ weight url m + counted url es
  unfolding fold_events counted fold
  weight-fold_events url [] m = omega arith
  weight-fold_events url (e ∷ es) m =
      let t = fold f (totals_of f e.recording_url m) e in
      ground (
        arith,
        weight-fold_events url es (set e.recording_url t m),
        weight-set url e.recording_url t m,
      )

  plays-seed_rollup :
      (url : String) (seed : List (String × Totals f)) (m : Rollup f)
      → plays f url (seed_rollup f seed m) ≡ plays f url m + weight url seed
  unfolding seed_rollup add_totals weight
  plays-seed_rollup url [] m = omega arith
  plays-seed_rollup url ((k, t) ∷ seed) m = ground (
    arith,
    plays-seed_rollup url seed (add_totals f m k t),
    get-set k url
        (record {
          plays = plays f k m + t.plays;
          completion_sum = f.plus (totals_of f k m).completion_sum t.completion_sum;
        })
        m,
    eq_iff k url,
  )

  -- The plays in the segments that the baseline has not taken in.
  unfoldable pub live_plays : String → List ℕ → List (Segment Num) → ℕ
  live_plays url folded [] = 0
  live_plays url folded (s ∷ disk) =
      (if includes folded s.day then 0 else counted url (read_segment f s.lines))
      + live_plays url folded disk

  counted-live_segments :
      (url : String) (folded : List ℕ) (disk : List (Segment Num))
      → counted url (replay f (live_segments f folded disk)) ≡ live_plays url folded disk
  unfolding live_segments live_plays replay counted
  counted-live_segments url folded [] = refl
  counted-live_segments url folded (s ∷ disk) = ground (
    arith,
    counted-live_segments url folded disk,
    counted-append url (read_segment f s.lines) (replay f (live_segments f folded disk)),
  )

  pub plays-derive :
      (url : String) (a : AggregateStore f) (disk : List (Segment Num))
      → plays f url (derive f a disk)
        ≡ weight url a.baseline + live_plays url a.folded_segments disk
  unfolding derive
  plays-derive url a disk = ground (
    arith,
    plays-fold_events url (replay f (live_segments f a.folded_segments disk))
        (seed_rollup f a.baseline []),
    plays-seed_rollup url a.baseline [],
    counted-live_segments url a.folded_segments disk,
    get-nil {V = Totals f} url,
  )
