-- ===== src/Connections.antt =====
-- Who is connected (apps/electron-client/src/syncConnections.ts). A socket is a number; the order of
-- the entries is the order in which they were added.
pub mod Heartbeat
pub mod Shown
use tapes_monorepo.Base.{
  ℕ, ◌+◌, String, Bool, true, false, List, [], ◌∷◌, Option, none, some, if◌then◌else◌, text_eq,
  nat_eq, is_some, Dict, keys, get, set, delete,
}

pub record SyncConnection : Type 0 where
  pub id : ℕ
  pub label : Option String
  pub address : Option String
  pub connected_at : ℕ
  pub self : Bool
  pub device_key : Option String

pub record ConnectionEntry : Type 0 where
  pub connection : SyncConnection
  pub alive : Bool

pub record Registry : Type 0 where
  pub next_id : ℕ
  pub entries : Dict ℕ ConnectionEntry
  -- what `onChange` was called with, the last first
  pub emitted : List (List SyncConnection)

unfoldable pub connections : Dict ℕ ConnectionEntry → List SyncConnection
connections [] = []
connections ((socket, e) ∷ entries) = e.connection ∷ connections entries

abbrev pub emit : Registry → Registry
emit r = record r { emitted = connections r.entries ∷ r.emitted }

-- `add`; the details come without an id and a time
unfoldable pub add_socket : ℕ → SyncConnection → ℕ → Registry → Registry
unfolding connections
add_socket socket details now r = emit (record r {
  next_id = r.next_id + 1;
  entries =
      set socket
        (record {
          connection = record details { id = r.next_id; connected_at = now };
          alive = true;
        })
        r.entries;
})

-- `remove`: nothing is emitted where there is nothing to remove
unfoldable pub remove_socket : ℕ → Registry → Registry
unfolding connections
remove_socket socket r =
    if is_some (get socket r.entries)
    then emit (record r { entries = delete socket r.entries })
    else r

-- the `pong` handler
unfoldable pub pong : ℕ → Registry → Registry
pong socket r = elim (get socket r.entries) [
  | none ↦ r
  | some e ↦ record r { entries = set socket (record e { alive = true }) r.entries }
]

-- One round of the heartbeat's loop. `terminate` makes the socket's `close` fire, which removes it
-- again.
unfoldable pub beat_socket : ℕ → Registry → Registry
unfolding remove_socket
beat_socket socket r = elim (get socket r.entries) [
  | none ↦ r
  | some e ↦
      if e.alive
      then record r { entries = set socket (record e { alive = false }) r.entries }
      else remove_socket socket (remove_socket socket r)
]

unfoldable pub beat_sockets : List ℕ → Registry → Registry
unfolding beat_socket
beat_sockets [] r = r
beat_sockets (socket ∷ sockets) r = beat_sockets sockets (beat_socket socket r)

unfoldable pub heartbeat : Registry → Registry
unfolding beat_sockets
heartbeat r = beat_sockets (keys r.entries) r

unfoldable pub close_registry : Registry → Registry
close_registry r = record r { entries = []; emitted = [] ∷ r.emitted }
