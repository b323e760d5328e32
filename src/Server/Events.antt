-- ===== src/Server/Events.antt =====
-- Events for a node wait until its next heartbeat: `applyCleanup` and the answer to Heartbeat.
use cpp_robot_middleware.Prelude.{ℕ, List, [], ◌∷◌, ◌++◌, none, some, length, if◌then◌else◌, ◌==◌}
use cpp_robot_middleware.Map.{OrderedMap, lookup, insert, erase, id_key}
use cpp_robot_middleware.Registry.{RegistryState, is_some}
use cpp_robot_middleware.Registry.Cleanup.{PeerEventRecord, DeadNodeCleanup}
use cpp_robot_middleware.Registry.Queries.{node}
use cpp_robot_middleware.Server.{Server, cleanup_pending}

abbrev pub max_events_per_node : ℕ
max_events_per_node = 1024

-- `events.erase(events.begin())` when the list is full.
abbrev pub without_first : {A : Type 0} → List A → List A
without_first [] = []
without_first (x ∷ xs) = xs

unfoldable pub add_event : List PeerEventRecord → PeerEventRecord → List PeerEventRecord
add_event events event =
    (if length events == max_events_per_node then without_first events else events) ++ event ∷ []

-- `peer_events[id]`, which starts empty.
abbrev pub events_of : OrderedMap ℕ (List PeerEventRecord) → ℕ → List PeerEventRecord
events_of m i = elim (lookup i m) [ none ↦ [] | some events ↦ events ]

-- The loop over the events of a cleanup.
unfoldable pub add_events :
    RegistryState
    → List PeerEventRecord
    → OrderedMap ℕ (List PeerEventRecord)
    → OrderedMap ℕ (List PeerEventRecord)
add_events state [] m = m
add_events state (event ∷ events) m = add_events state events (
    if is_some (node state event.target_node_id)
    then insert event.target_node_id (add_event (events_of m event.target_node_id) event) m
    else m)

-- Without the unlinking of names, which the state does not show.
unfoldable pub apply_cleanup : Server → DeadNodeCleanup → Server
apply_cleanup s cleanup = cleanup_pending (record s {
  peer_events = erase cleanup.node_id (add_events s.state cleanup.peer_events s.peer_events);
})
