-- ===== src/EventStore/Retry.antt =====
-- eventStore.ts: a batch that is sent again, after a lost response or from another process.
use tapes_monorepo.Base.{
  ℕ, String, true, ◌||◌, List, [], ◌∷◌, ◌++◌, ◌⊎◌, inl, inr, some, ◌≡◌, refl, sym, subst, arith,
  eq_iff, if◌then◌else◌, text_eq, nat_eq, ◌==◌, list_eq, All, includes, includes-append, Float,
}
use tapes_monorepo.EventStore.{
  PlaybackEvent, Written, EventStore, key_of, admit, append, launch, whole,
}
use tapes_monorepo.EventStore.Once.{
  count_key-admit, IsIndexed, are_ended, IsFinite, append-IsIndexed, launch-includes,
}

module _ {N : Type 0} where
  -- The index has the event, or the event has no id and is never taken.
  abbrev pub IsTaken : List String → PlaybackEvent N → Type 0
  IsTaken seen e = ((e.id == "") || includes seen (key_of e)) ≡ true

  -- The ids that are reported for a batch that the index already has.
  abbrev pub ids : List (PlaybackEvent N) → List String
  ids [] = []
  ids (e ∷ es) = let rest = ids es in if e.id == "" then rest else e.id ∷ rest

  pub admit-taken :
      (now : ℕ) (es : List (PlaybackEvent N)) (seen : List String)
      → All (IsTaken seen) es
      → admit now es seen ≡ record { seen = seen; accepted = []; duplicates = ids es }
  unfolding admit
  admit-taken now [] seen h = refl
  admit-taken now (e ∷ es) seen h = ground (arith, h.0, admit-taken now es seen h.1)

  includes-admit :
      (k : String) (now : ℕ) (es : List (PlaybackEvent N)) (seen : List String)
      → includes seen k ≡ true
      → includes (admit now es seen).seen k ≡ true
  includes-admit k now es seen h = ground (arith, count_key-admit k now es seen)

  seen-admit-cons :
      (now : ℕ) (e : PlaybackEvent N) (es : List (PlaybackEvent N)) (seen : List String)
      → ((admit now (e ∷ es) seen).seen ≡ (admit now es seen).seen)
        ⊎ ((admit now (e ∷ es) seen).seen ≡ (admit now es (seen ++ key_of e ∷ [])).seen)
  unfolding admit
  seen-admit-cons now e es seen = ground arith

  IsTaken-admit_head :
      (now : ℕ) (e : PlaybackEvent N) (es : List (PlaybackEvent N)) (seen : List String)
      → IsTaken (admit now (e ∷ es) seen).seen e
  unfolding admit
  IsTaken-admit_head now e es seen = ground (
    arith,
    includes-admit (key_of e) now es seen,
    includes-admit (key_of e) now es (seen ++ key_of e ∷ []),
    includes-append seen (key_of e ∷ []) (key_of e),
    eq_iff (key_of e) (key_of e),
  )

  pub IsTaken-admit :
      (now : ℕ) (es : List (PlaybackEvent N)) (seen : List String)
      → All (IsTaken (admit now es seen).seen) es
  IsTaken-admit now [] seen = tt
  IsTaken-admit now (e ∷ es) seen =
      let taken = IsTaken-admit now es seen in
      let taken' = IsTaken-admit now es (seen ++ key_of e ∷ []) in
      (
        IsTaken-admit_head now e es seen,
        elim (seen-admit-cons now e es seen) [
          | inl p ↦ subst (λ xs. All (IsTaken xs) es) (sym p) taken
          | inr p ↦ subst (λ xs. All (IsTaken xs) es) (sym p) taken'
        ],
      )

  seen-append :
      (store : EventStore N) (es : List (PlaybackEvent N)) (now : ℕ)
      → (append store es now whole).0.seen ≡ (admit now es store.seen).seen
  unfolding append
  seen-append store es now = ground arith

  IsTaken-append :
      (store : EventStore N) (es : List (PlaybackEvent N)) (now : ℕ)
      → All (IsTaken (append store es now whole).0.seen) es
  IsTaken-append store es now =
      subst (λ xs. All (IsTaken xs) es) (sym (seen-append store es now))
        (IsTaken-admit now es store.seen)

  append-taken :
      (store : EventStore N) (es : List (PlaybackEvent N)) (now : ℕ) (written : Written)
      → All (IsTaken store.seen) es
      → append store es now written ≡ (store, some (record { accepted = []; duplicates = ids es }))
  unfolding append
  append-taken store es now written h = ground (arith, admit-taken now es store.seen h)

  -- A batch that was stored is answered, when it is sent again at any time, by its ids as
  -- duplicates; nothing is accepted, and the store does not change, whether or not the disk works.
  pub append-append :
      (store : EventStore N) (es : List (PlaybackEvent N)) (now later : ℕ) (written : Written)
      → append (append store es now whole).0 es later written
        ≡ ((append store es now whole).0, some (record { accepted = []; duplicates = ids es }))
  append-append store es now later written =
      append-taken (append store es now whole).0 es later written (IsTaken-append store es now)

  pub IsTaken-ext :
      (seen other : List String) (es : List (PlaybackEvent N))
      → ((k : String) → includes seen k ≡ includes other k)
      → All (IsTaken other) es
      → All (IsTaken seen) es
  IsTaken-ext seen other [] same h = tt
  IsTaken-ext seen other (e ∷ es) same h =
      (ground (arith, same (key_of e), h.0), IsTaken-ext seen other es same h.1)

module _ (f : Float) where
  open f use {Num, is_finite}

  -- A batch that was stored is answered, when it is sent again to a process that was launched on
  -- the disk since, by its ids as duplicates; nothing is accepted, and the store does not change,
  -- whether or not the disk works. The log agreed with its index before the batch, its files end in
  -- a newline, and the events are finite.
  pub append_after_launch :
      (store : EventStore Num) (es : List (PlaybackEvent Num)) (now later : ℕ) (written : Written)
      → All (IsFinite f) es
      → are_ended f store.disk ≡ true
      → IsIndexed f store
      → let relaunched = launch f (append store es now whole).0.disk in
        append relaunched es later written
        ≡ (relaunched, some (record { accepted = []; duplicates = ids es }))
  append_after_launch store es now later written finite ended indexed =
      let stored = (append store es now whole).0 in
      let ok = append-IsIndexed f store es now whole finite refl ended indexed in
      append-taken (launch f stored.disk) es later written (
        IsTaken-ext (launch f stored.disk).seen stored.seen es (λ k. launch-includes f stored k ok)
          (IsTaken-append store es now))
