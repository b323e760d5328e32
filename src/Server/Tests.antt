-- ===== src/Server/Tests.antt =====
-- The server at a registry with a publisher and a subscriber.
use cpp_robot_middleware.Prelude.{
  ℕ, ◌++◌, length, ◌≡◌, refl, true, [], ◌∷◌, none, some, arith, select,
}
use cpp_robot_middleware.Map.{lookup, id_key}
use cpp_robot_middleware.Registry.Cleanup.{PeerEventRecord, publisher_dead, DeadNodeCleanup}
use cpp_robot_middleware.Registry.Invariant.{IsValid, Within}
use cpp_robot_middleware.Registry.Tests.{live, live-IsValid}
use cpp_robot_middleware.Server.{Server, complete_pending}
use cpp_robot_middleware.Server.Events.{events_of, apply_cleanup}
use cpp_robot_middleware.Server.Dispatch.{dispatch}
use cpp_robot_middleware.Server.Safety.{dispatch-total}
use cpp_robot_middleware.Registry.Queries.{resolve, discover_all}
use cpp_robot_middleware.Registry.Nodes.{owned_node}
use cpp_robot_middleware.Registry.Watch.{outlived}
use cpp_robot_middleware.Server.Departures.{
  remove_client, all_open, remove_client_lem, expire_dead_nodes, expire_dead_nodes_lem,
}
use cpp_robot_middleware.Server.Waiting.{
  IsBounded, is_quiet, answers, complete_pending_lem, apply_cleanup-IsBounded,
}

abbrev event : PeerEventRecord
event = record {
  kind = publisher_dead;
  target_node_id = 2;
  target_endpoint_id = 2;
  dead_endpoint_id = 1;
  topic_id = 1;
  resource_id = 0;
}

-- The publisher's connection 7 is on descriptor 4 and waits for its discovery.
abbrev server : Server
server = record {
  state = live;
  clients = (4, 7) ∷ (5, 8) ∷ [];
  pending =
      (
        1,
        record {
          fd = 4;
          connection_id = 7;
          node_id = 1;
          publisher_endpoint_id = 1;
          request_id = 12;
        },
      )
      ∷ [];
  peer_events = (2, event ∷ []) ∷ [];
  replies = [];
}

-- UnregisterNode of node 1.
dispatch-total_example :
    (s' : Server) × (dispatch server 4 7 13 500 2 (0 ∷ 0 ∷ 0 ∷ 0 ∷ 0 ∷ 0 ∷ 0 ∷ 1 ∷ []) ≡ some s')
    × IsValid s'.state
    × Within 4 s'.state
dispatch-total_example =
    dispatch-total 3 server live-IsValid
      (record { node_room = refl; topic_room = refl; endpoint_room = refl }) refl 4 7 13 500 2
      (0 ∷ 0 ∷ 0 ∷ 0 ∷ 0 ∷ 0 ∷ 0 ∷ 1 ∷ [])

complete_pending_lem_example :
    complete_pending server
    ≡ some (record server {
      pending = select (is_quiet live) server.pending;
      replies = server.replies ++ answers server server.pending;
    })
complete_pending_lem_example = complete_pending_lem server live-IsValid

-- The topic has a subscriber, so the discovery is answered.
told : length (answers server server.pending) ≡ 1
unfolding resolve owned_node discover_all
told = refl

abbrev dead_publisher : DeadNodeCleanup
dead_publisher = record {
  node_id = 1;
  session_id = 1;
  control_connection = 7;
  heartbeat_connection = 0;
  pools = [];
  queues = [];
  socket_paths = [];
  peer_events = event ∷ [];
}

few_events : IsBounded server.peer_events
few_events i = ground arith

apply_cleanup-IsBounded_example :
    IsBounded (apply_cleanup server dead_publisher).peer_events
    × (events_of (apply_cleanup server dead_publisher).peer_events 1 ≡ [])
apply_cleanup-IsBounded_example = apply_cleanup-IsBounded server dead_publisher few_events

-- Descriptor 4 goes: node 1 was its own.
remove_client_lem_example :
    (s' : Server) × (remove_client server 4 ≡ some s')
    × IsValid s'.state
    × (lookup 4 s'.clients ≡ none)
    × (all_open server.clients server.pending ≡ true → all_open s'.clients s'.pending ≡ true)
remove_client_lem_example = remove_client_lem server 4 live-IsValid

expire_dead_nodes_lem_example :
    (s' : Server) × (expire_dead_nodes server 500 ≡ some s')
    × IsValid s'.state
    × ((j : ℕ) → lookup j s'.state.nodes ≡ outlived live.liveness 500 (lookup j live.nodes))
    × (all_open server.clients server.pending ≡ true → all_open s'.clients s'.pending ≡ true)
expire_dead_nodes_lem_example = expire_dead_nodes_lem server 500 live-IsValid
