-- ===== src/Cache.antt =====
-- What a device drops from its cache of recordings (packages/core/app/blobCache.ts).
use tapes_monorepo.Base.{
  ℕ, ◌+◌, ◌-◌, ◌≤◌, String, false, not, List, [], ◌∷◌, ◌⊎◌, inl, inr, ◌≡◌, refl, arith,
  if◌then◌else◌, ltb, leb, text_eq, nat_eq, Bool-cases, length, filter, All, includes, Dict,
}

pub record CacheEntry : Type 0 where
  pub size : ℕ
  pub last_played_at : ℕ

abbrev pub CacheIndex : Type 0
CacheIndex = Dict String CacheEntry

abbrev pub total_size : CacheIndex → ℕ
total_size [] = 0
total_size ((hash, e) ∷ entries) = e.size + total_size entries

-- A stable sort by the time of the last play.
unfoldable pub insert_by_play : String × CacheEntry → CacheIndex → CacheIndex
insert_by_play x [] = x ∷ []
insert_by_play x (y ∷ ys) =
    if ltb y.1.last_played_at x.1.last_played_at then y ∷ insert_by_play x ys else x ∷ y ∷ ys

unfoldable pub sort_by_play : CacheIndex → CacheIndex
unfolding insert_by_play
sort_by_play [] = []
sort_by_play (x ∷ xs) = insert_by_play x (sort_by_play xs)

-- the loop that evicts while there is too much
unfoldable pub evict_while : ℕ → ℕ → CacheIndex → CacheIndex
evict_while budget total [] = []
evict_while budget total ((hash, e) ∷ entries) =
    let more = evict_while budget (total - e.size) entries in
    if leb total budget then [] else (hash, e) ∷ more

abbrev pub unpinned : List String → CacheIndex → CacheIndex
unpinned pinned = filter (λ (hash, e). not (includes pinned hash))

-- `selectEvictions`, with the entries that it evicts; the code gives their hashes
unfoldable pub select_evictions : CacheIndex → List String → ℕ → CacheIndex
unfolding sort_by_play evict_while
select_evictions index pinned budget =
    if leb (total_size index) budget
    then []
    else evict_while budget (total_size index) (sort_by_play (unpinned pinned index))

module _ (Q : String × CacheEntry → Type 0) where
  All-insert_by_play :
      (x : String × CacheEntry) (xs : CacheIndex) → Q x → All Q xs → All Q (insert_by_play x xs)
  unfolding insert_by_play
  All-insert_by_play x [] q h = (q, tt)
  All-insert_by_play x (y ∷ ys) q h =
      elim (Bool-cases (ltb y.1.last_played_at x.1.last_played_at)) [
        | inl later ↦ rw later (h.0, All-insert_by_play x ys q h.1)
        | inr first ↦ rw first (q, h)
      ]

  All-sort_by_play : (xs : CacheIndex) → All Q xs → All Q (sort_by_play xs)
  unfolding sort_by_play
  All-sort_by_play [] h = tt
  All-sort_by_play (x ∷ xs) h = All-insert_by_play x (sort_by_play xs) h.0 (All-sort_by_play xs h.1)

  All-evict_while :
      (budget total : ℕ) (xs : CacheIndex) → All Q xs → All Q (evict_while budget total xs)
  unfolding evict_while
  All-evict_while budget total [] h = tt
  All-evict_while budget total ((hash, e) ∷ xs) h = elim (Bool-cases (leb total budget)) [
    | inl fits ↦ rw fits tt
    | inr over ↦ rw over (h.0, All-evict_while budget (total - e.size) xs h.1)
  ]

length-insert_by_play :
    (x : String × CacheEntry) (xs : CacheIndex) → length (insert_by_play x xs) ≡ length xs + 1
unfolding insert_by_play
length-insert_by_play x [] = refl
length-insert_by_play x (y ∷ ys) = ground (arith, length-insert_by_play x ys)

length-sort_by_play : (xs : CacheIndex) → length (sort_by_play xs) ≡ length xs
unfolding sort_by_play
length-sort_by_play [] = refl
length-sort_by_play (x ∷ xs) =
    omega (arith, length-insert_by_play x (sort_by_play xs), length-sort_by_play xs)

All-unpinned :
    (pinned : List String) (xs : CacheIndex)
    → All (λ x. includes pinned x.0 ≡ false) (unpinned pinned xs)
All-unpinned pinned [] = tt
All-unpinned pinned ((hash, e) ∷ xs) = elim (Bool-cases (includes pinned hash)) [
  | inl held ↦ rw held (All-unpinned pinned xs)
  | inr free ↦ rw free (free, All-unpinned pinned xs)
]

-- The loop stops as soon as what is left fits, or has evicted everything.
evict_while-fits :
    (budget total : ℕ) (xs : CacheIndex)
    → (total - total_size (evict_while budget total xs) ≤ budget)
      ⊎ (length (evict_while budget total xs) ≡ length xs)
unfolding evict_while
evict_while-fits budget total [] = inr refl
evict_while-fits budget total ((hash, e) ∷ xs) = elim (Bool-cases (leb total budget)) [
  | inl fits ↦ inl (ground (arith, fits))
  | inr over ↦ elim (evict_while-fits budget (total - e.size) xs) [
    | inl enough ↦ inl (ground (arith, over, enough))
    | inr every ↦ inr (ground (arith, over, every))
  ]
]

-- No pinned recording is evicted; and what is left of the cache fits the budget, unless every
-- recording that is not pinned has been evicted.
pub select_evictions_lem :
    (index : CacheIndex) (pinned : List String) (budget : ℕ)
    → let evicted = select_evictions index pinned budget in
      All (λ x. includes pinned x.0 ≡ false) evicted
      × ((total_size index - total_size evicted ≤ budget)
          ⊎ (length evicted ≡ length (unpinned pinned index)))
unfolding select_evictions
select_evictions_lem index pinned budget = elim (Bool-cases (leb (total_size index) budget)) [
  | inl fits ↦ rw fits (tt, inl (ground (arith, fits)))
  | inr over ↦
      let sorted = sort_by_play (unpinned pinned index) in
      rw over (
        All-evict_while (λ x. includes pinned x.0 ≡ false) budget (total_size index) sorted
            (All-sort_by_play (λ x. includes pinned x.0 ≡ false) (unpinned pinned index)
              (All-unpinned pinned index)),
        elim (evict_while-fits budget (total_size index) sorted) [
          | inl enough ↦ inl enough
          | inr every ↦ inr (omega (arith, every, length-sort_by_play (unpinned pinned index)))
        ],
      )
]
