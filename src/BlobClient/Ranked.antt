-- ===== src/BlobClient/Ranked.antt =====
-- blobClient.ts: the order in which the statements are copied.
use mathlib.Core.List.{Memᴰ}
use tapes_monorepo.Base.{
  ℕ, ◌≤◌, List, [], ◌∷◌, inl, inr, ◌≡◌, sym, subst, arith, leb, text_eq, nat_eq, Bool-cases,
  list_eq, All,
}
use tapes_monorepo.BlobClient.Replicate.{FetchedStatement, rank, insert_by_rank, sort_by_rank}

-- Each comes before those of a higher rank only.
abbrev pub Ranked : List FetchedStatement → Type 0
Ranked [] = Unit
Ranked (s ∷ ss) = All (λ t. rank s.payload ≤ rank t.payload) ss × Ranked ss

All-weaken :
    (k : ℕ) (s : FetchedStatement) (ss : List FetchedStatement)
    → k ≤ rank s.payload
    → All (λ t. rank s.payload ≤ rank t.payload) ss
    → All (λ t. k ≤ rank t.payload) ss
All-weaken k s [] le h = tt
All-weaken k s (t ∷ ts) le h = (ground (arith, le, h.0), All-weaken k s ts le h.1)

All-insert {κ} :
    (P : FetchedStatement → Type κ) (s : FetchedStatement) (ss : List FetchedStatement)
    → P s
    → All P ss
    → All P (insert_by_rank s ss)
All-insert P s [] p h = (p, tt)
All-insert P s (t ∷ ts) p h = elim (Bool-cases (leb (rank s.payload) (rank t.payload))) [
  | inl le ↦
      let same : insert_by_rank s (t ∷ ts) ≡ s ∷ t ∷ ts = ground (arith, le) in
      subst (All P) (sym same) (p, h)
  | inr gt ↦
      let same : insert_by_rank s (t ∷ ts) ≡ t ∷ insert_by_rank s ts = ground (arith, gt) in
      subst (All P) (sym same) (h.0, All-insert P s ts p h.1)
]

pub All-sort {κ} :
    (P : FetchedStatement → Type κ) (ss : List FetchedStatement)
    → All P ss
    → All P (sort_by_rank ss)
All-sort P [] h = tt
All-sort P (s ∷ ss) h = All-insert P s (sort_by_rank ss) h.0 (All-sort P ss h.1)

insert-Ranked :
    (s : FetchedStatement) (ss : List FetchedStatement) → Ranked ss → Ranked (insert_by_rank s ss)
insert-Ranked s [] h = (tt, tt)
insert-Ranked s (t ∷ ts) h = elim (Bool-cases (leb (rank s.payload) (rank t.payload))) [
  | inl le ↦
      let same : insert_by_rank s (t ∷ ts) ≡ s ∷ t ∷ ts = ground (arith, le) in
      let below : rank s.payload ≤ rank t.payload = ground (arith, le) in
      subst Ranked (sym same) ((below, All-weaken (rank s.payload) t ts below h.0), h)
  | inr gt ↦
      let same : insert_by_rank s (t ∷ ts) ≡ t ∷ insert_by_rank s ts = ground (arith, gt) in
      let above : rank t.payload ≤ rank s.payload = ground (arith, gt) in
      subst Ranked (sym same)
        (All-insert (λ g. rank t.payload ≤ rank g.payload) s ts above h.0, insert-Ranked s ts h.1)
]

pub sort-Ranked : (ss : List FetchedStatement) → Ranked (sort_by_rank ss)
sort-Ranked [] = tt
sort-Ranked (s ∷ ss) = insert-Ranked s (sort_by_rank ss) (sort-Ranked ss)

insert-keeps :
    (g s : FetchedStatement) (ss : List FetchedStatement)
    → Memᴰ g (s ∷ ss)
    → Memᴰ g (insert_by_rank s ss)
insert-keeps g s [] there = there
insert-keeps g s (t ∷ ts) there = elim (Bool-cases (leb (rank s.payload) (rank t.payload))) [
  | inl le ↦
      let same : insert_by_rank s (t ∷ ts) ≡ s ∷ t ∷ ts = ground (arith, le) in
      subst (Memᴰ g) (sym same) there
  | inr gt ↦
      let same : insert_by_rank s (t ∷ ts) ≡ t ∷ insert_by_rank s ts = ground (arith, gt) in
      subst (Memᴰ g) (sym same) (elim there [
        | Memᴰ.head e ↦ Memᴰ.tail (insert-keeps g s ts (Memᴰ.head e))
        | Memᴰ.tail (Memᴰ.head e) ↦ Memᴰ.head e
        | Memᴰ.tail (Memᴰ.tail m) ↦ Memᴰ.tail (insert-keeps g s ts (Memᴰ.tail m))
      ])
]

pub sort-keeps :
    (g : FetchedStatement) (ss : List FetchedStatement) → Memᴰ g ss → Memᴰ g (sort_by_rank ss)
sort-keeps g [] there = elim there [ ]
sort-keeps g (s ∷ ss) (Memᴰ.head e) = insert-keeps g s (sort_by_rank ss) (Memᴰ.head e)
sort-keeps g (s ∷ ss) (Memᴰ.tail m) =
    insert-keeps g s (sort_by_rank ss) (Memᴰ.tail (sort-keeps g ss m))
