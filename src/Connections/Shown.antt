-- ===== src/Connections/Shown.antt =====
-- syncConnections.ts: the list that was last emitted is the list of who is connected.
use tapes_monorepo.Base.{
  ℕ, Bool, true, false, List, [], ◌∷◌, inl, inr, Option, some, ◌≡◌, refl, arith, text_eq, nat_eq,
  Option-cases, get_elem?, Dict, keys, get, set,
}
use tapes_monorepo.Connections.{
  SyncConnection, ConnectionEntry, Registry, connections, add_socket, remove_socket, pong,
  beat_socket, beat_sockets, heartbeat, close_registry,
}

abbrev last_emitted : Registry → Option (List SyncConnection)
last_emitted r = get_elem? r.emitted 0

-- The listener has the connections as they are.
abbrev pub IsShown : Registry → Type 0
IsShown r = last_emitted r ≡ some (connections r.entries)

connections-set :
    (socket : ℕ) (e f : ConnectionEntry) (entries : Dict ℕ ConnectionEntry)
    → get socket entries ≡ some e
    → f.connection ≡ e.connection
    → connections (set socket f entries) ≡ connections entries
unfolding connections set get
connections-set socket e f [] found same = absurd (ground (arith, found))
connections-set socket e f ((s, g) ∷ entries) found same =
    ground (arith, found, same, connections-set socket e f entries)

remove_socket-IsShown : (socket : ℕ) (r : Registry) → IsShown r → IsShown (remove_socket socket r)
unfolding remove_socket
remove_socket-IsShown socket r ok = ground (arith, ok)

mark-IsShown :
    (socket : ℕ) (e : ConnectionEntry) (alive : Bool) (r : Registry)
    → get socket r.entries ≡ some e
    → IsShown r
    → IsShown (record r { entries = set socket (record e { alive = alive }) r.entries })
mark-IsShown socket e alive r found ok =
    ground (arith, ok, connections-set socket e (record e { alive = alive }) r.entries found refl)

pong-IsShown : (socket : ℕ) (r : Registry) → IsShown r → IsShown (pong socket r)
unfolding pong
pong-IsShown socket r ok = elim (Option-cases (get socket r.entries)) [
  | inl absent ↦ ground (arith, absent, ok)
  | inr (e, found) ↦ ground (arith, found, ok, mark-IsShown socket e true r found ok)
]

beat_socket-IsShown : (socket : ℕ) (r : Registry) → IsShown r → IsShown (beat_socket socket r)
unfolding beat_socket
beat_socket-IsShown socket r ok = elim (Option-cases (get socket r.entries)) [
  | inl absent ↦ ground (arith, absent, ok)
  | inr (e, found) ↦
      let removed =
        remove_socket-IsShown socket (remove_socket socket r) (remove_socket-IsShown socket r ok) in
      ground (arith, found, ok, removed, mark-IsShown socket e false r found ok)
]

beat_sockets-IsShown :
    (sockets : List ℕ) (r : Registry) → IsShown r → IsShown (beat_sockets sockets r)
unfolding beat_sockets
beat_sockets-IsShown [] r ok = ok
beat_sockets-IsShown (socket ∷ sockets) r ok =
    beat_sockets-IsShown sockets (beat_socket socket r) (beat_socket-IsShown socket r ok)

-- What happens to a registry.
pub data ConnectionEvent : Type 0 where
  connects : (socket : ℕ) → SyncConnection → (now : ℕ) → ConnectionEvent
  disconnects pongs : (socket : ℕ) → ConnectionEvent
  beats closes : ConnectionEvent

unfoldable pub observe : ConnectionEvent → Registry → Registry
observe (connects socket details now) = add_socket socket details now
observe (disconnects socket) = remove_socket socket
observe (pongs socket) = pong socket
observe beats = heartbeat
observe closes = close_registry

unfoldable pub observe_all : List ConnectionEvent → Registry → Registry
unfolding observe
observe_all [] r = r
observe_all (e ∷ es) r = observe_all es (observe e r)

observe-IsShown : (e : ConnectionEvent) (r : Registry) → IsShown r → IsShown (observe e r)
unfolding observe add_socket heartbeat close_registry connections
observe-IsShown (connects socket details now) r ok = refl
observe-IsShown (disconnects socket) r ok = remove_socket-IsShown socket r ok
observe-IsShown (pongs socket) r ok = pong-IsShown socket r ok
observe-IsShown beats r ok = beat_sockets-IsShown (keys r.entries) r ok
observe-IsShown closes r ok = refl

-- Through any connects, disconnects, pongs, heartbeats and closes, what the listener was last told is
-- the list of the connections as they are, if it was so before.
pub observe_all-IsShown :
    (es : List ConnectionEvent) (r : Registry) → IsShown r → IsShown (observe_all es r)
unfolding observe_all
observe_all-IsShown [] r ok = ok
observe_all-IsShown (e ∷ es) r ok = observe_all-IsShown es (observe e r) (observe-IsShown e r ok)
