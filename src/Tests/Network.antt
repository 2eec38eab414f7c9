-- ===== src/Tests/Network.antt =====
-- syncChallenges.ts and syncConnections.ts on small stores.
use tapes_monorepo.Base.{true, false, [], ◌∷◌, none, some, ◌≡◌, refl, text_eq, nat_eq, get}
use tapes_monorepo.Challenges.{ChallengeStore, consume, consume_all, consume-once}
use tapes_monorepo.Connections.{
  SyncConnection, ConnectionEntry, Registry, connections, pong, heartbeat,
}
use tapes_monorepo.Connections.Heartbeat.{heartbeat-heartbeat}
use tapes_monorepo.Connections.Shown.{
  IsShown, observe_all, observe_all-IsShown, connects, disconnects, beats,
}

abbrev two_challenges : ChallengeStore
two_challenges = ("a", 1000) ∷ ("b", 2000) ∷ []

consume-once_example :
    (consume 60_000 "a" 1002
      (consume_all 60_000 (("b", 1001) ∷ []) (consume 60_000 "a" 1001 two_challenges).0).0).1
    ≡ false
consume-once_example = consume-once 60_000 "a" 1001 1002 (("b", 1001) ∷ []) two_challenges

abbrev phone : SyncConnection
phone = record {
  id = 1;
  label = some "Phone";
  address = none;
  connected_at = 1000;
  self = false;
  device_key = none;
}

abbrev registry : Registry
registry = record {
  next_id = 2;
  entries = (7, record { connection = phone; alive = true }) ∷ [];
  emitted = (phone ∷ []) ∷ [];
}

heartbeat-heartbeat_example :
    (get 7 (heartbeat (heartbeat registry)).entries ≡ none)
    × ((e : ConnectionEntry)
        → get 7 (heartbeat registry).entries ≡ some e
        → get 7 (heartbeat (pong 7 (heartbeat registry))).entries
          ≡ some (record e { alive = false }))
heartbeat-heartbeat_example = heartbeat-heartbeat 7 registry refl

observe_all-IsShown_example :
    IsShown (observe_all (connects 8 phone 2000 ∷ beats ∷ beats ∷ disconnects 8 ∷ []) registry)
unfolding connections
observe_all-IsShown_example =
    observe_all-IsShown (connects 8 phone 2000 ∷ beats ∷ beats ∷ disconnects 8 ∷ []) registry refl
