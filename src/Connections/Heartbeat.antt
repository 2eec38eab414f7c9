-- ===== src/Connections/Heartbeat.antt =====
-- syncConnections.ts: which sockets a heartbeat keeps.
use tapes_monorepo.Base.{
  ℕ, Bool, true, false, not, ◌&&◌, ◌||◌, List, [], ◌∷◌, inl, inr, Option, none, some, ◌≡◌, refl,
  arith, if◌then◌else◌, nat_beq_iff, text_eq, nat_eq, ◌==◌, Option-cases, is_some, includes, Dict,
  keys, get, set, delete, get-set, get-delete,
}
use tapes_monorepo.Connections.{
  ConnectionEntry, Registry, remove_socket, pong, beat_socket, beat_sockets, heartbeat,
}

abbrev pub distinct : List ℕ → Bool
distinct [] = true
distinct (x ∷ xs) = not (includes xs x) && distinct xs

-- No socket has two entries.
abbrev pub IsKeyed : Registry → Type 0
IsKeyed r = distinct (keys r.entries) ≡ true

module _ {V : Type 0} where
  includes-keys-set :
      (k j : ℕ) (v : V) (m : Dict ℕ V)
      → includes (keys (set k v m)) j ≡ (k == j || includes (keys m) j)
  unfolding set
  includes-keys-set k j v [] = ground arith
  includes-keys-set k j v ((i, w) ∷ m) = ground (arith, includes-keys-set k j v m, nat_beq_iff i k)

  includes-keys-delete :
      (k j : ℕ) (m : Dict ℕ V)
      → includes (keys (delete k m)) j ≡ (not (k == j) && includes (keys m) j)
  unfolding delete
  includes-keys-delete k j [] = ground arith
  includes-keys-delete k j ((i, w) ∷ m) =
      ground (arith, includes-keys-delete k j m, nat_beq_iff i k, nat_beq_iff i j, nat_beq_iff k j)

  distinct-set :
      (k : ℕ) (v : V) (m : Dict ℕ V) → distinct (keys m) ≡ true → distinct (keys (set k v m)) ≡ true
  unfolding set
  distinct-set k v [] h = refl
  distinct-set k v ((i, w) ∷ m) h =
      ground
        (arith, h, distinct-set k v m, includes-keys-set k i v m, nat_beq_iff k i, nat_beq_iff i k)

  distinct-delete :
      (k : ℕ) (m : Dict ℕ V) → distinct (keys m) ≡ true → distinct (keys (delete k m)) ≡ true
  unfolding delete
  distinct-delete k [] h = refl
  distinct-delete k ((i, w) ∷ m) h =
      ground (arith, h, distinct-delete k m, includes-keys-delete k i m)

  get-keys : (k : ℕ) (m : Dict ℕ V) → includes (keys m) k ≡ is_some (get k m)
  unfolding get
  get-keys k [] = refl
  get-keys k ((i, w) ∷ m) = ground (arith, get-keys k m)

-- What a beat makes of a socket's entry.
abbrev pub beaten : Option ConnectionEntry → Option ConnectionEntry
beaten none = none
beaten (some e) = if e.alive then some (record e { alive = false }) else none

get-beat_socket :
    (socket s : ℕ) (r : Registry)
    → get s (beat_socket socket r).entries
      ≡ (if socket == s then beaten (get s r.entries) else get s r.entries)
unfolding beat_socket remove_socket
get-beat_socket socket s r = elim (Option-cases (get socket r.entries)) [
  | inl absent ↦ ground (arith, absent, nat_beq_iff socket s)
  | inr (e, found) ↦ ground (
    arith,
    found,
    nat_beq_iff socket s,
    get-set socket s (record e { alive = false }) r.entries,
    get-delete socket s r.entries,
    get-delete socket socket r.entries,
  )
]

distinct-beat_socket : (socket : ℕ) (r : Registry) → IsKeyed r → IsKeyed (beat_socket socket r)
unfolding beat_socket remove_socket
distinct-beat_socket socket r ok = elim (Option-cases (get socket r.entries)) [
  | inl absent ↦ ground (arith, absent, ok)
  | inr (e, found) ↦ ground (
    arith,
    found,
    ok,
    distinct-set socket (record e { alive = false }) r.entries,
    distinct-delete socket r.entries,
    distinct-delete socket (delete socket r.entries),
  )
]

get-beat_sockets :
    (sockets : List ℕ) (s : ℕ) (r : Registry)
    → distinct sockets ≡ true
    → get s (beat_sockets sockets r).entries
      ≡ (if includes sockets s then beaten (get s r.entries) else get s r.entries)
unfolding beat_sockets
get-beat_sockets [] s r ok = refl
get-beat_sockets (socket ∷ sockets) s r ok = ground (
  arith,
  ok,
  get-beat_sockets sockets s (beat_socket socket r),
  get-beat_socket socket s r,
  nat_beq_iff socket s,
)

distinct-beat_sockets :
    (sockets : List ℕ) (r : Registry) → IsKeyed r → IsKeyed (beat_sockets sockets r)
unfolding beat_sockets
distinct-beat_sockets [] r ok = ok
distinct-beat_sockets (socket ∷ sockets) r ok =
    distinct-beat_sockets sockets (beat_socket socket r) (distinct-beat_socket socket r ok)

pub heartbeat-IsKeyed : (r : Registry) → IsKeyed r → IsKeyed (heartbeat r)
unfolding heartbeat
heartbeat-IsKeyed r ok = distinct-beat_sockets (keys r.entries) r ok

get-heartbeat :
    (s : ℕ) (r : Registry) → IsKeyed r → get s (heartbeat r).entries ≡ beaten (get s r.entries)
unfolding heartbeat
get-heartbeat s r ok = ground (
  arith,
  get-beat_sockets (keys r.entries) s r ok,
  get-keys s r.entries,
  Option-cases (get s r.entries),
)

pong-IsKeyed : (socket : ℕ) (r : Registry) → IsKeyed r → IsKeyed (pong socket r)
unfolding pong
pong-IsKeyed socket r ok = elim (Option-cases (get socket r.entries)) [
  | inl absent ↦ ground (arith, absent, ok)
  | inr (e, found) ↦
      ground (arith, found, ok, distinct-set socket (record e { alive = true }) r.entries)
]

get-pong :
    (socket : ℕ) (r : Registry) (e : ConnectionEntry)
    → get socket r.entries ≡ some e
    → get socket (pong socket r).entries ≡ some (record e { alive = true })
unfolding pong
get-pong socket r e found = ground (
  arith,
  found,
  nat_beq_iff socket socket,
  get-set socket socket (record e { alive = true }) r.entries,
)

-- A socket that does not answer is gone after two heartbeats, and one that answers the first is still
-- there after the second, with the same connection. No socket has two entries.
pub heartbeat-heartbeat :
    (s : ℕ) (r : Registry)
    → IsKeyed r
    → (get s (heartbeat (heartbeat r)).entries ≡ none)
      × ((e : ConnectionEntry)
          → get s (heartbeat r).entries ≡ some e
          → get s (heartbeat (pong s (heartbeat r))).entries ≡ some (record e { alive = false }))
heartbeat-heartbeat s r ok =
    let once = heartbeat-IsKeyed r ok in
    (
      ground (arith, get-heartbeat s r ok, get-heartbeat s (heartbeat r) once),
      λ e there. ground (
        arith,
        there,
        get-pong s (heartbeat r) e there,
        get-heartbeat s (pong s (heartbeat r)) (pong-IsKeyed s (heartbeat r) once),
      ),
    )
