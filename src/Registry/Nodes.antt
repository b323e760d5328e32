-- ===== src/Registry/Nodes.antt =====
-- Nodes and heartbeats: `registerNode`, `ownedNode`, `attachHeartbeat`, `heartbeat` and
-- `detachHeartbeatConnection`, registry/src/registry_state.cpp.
use cpp_robot_middleware.Prelude.{
  ℕ, ◌&&◌, ◌||◌, List, [], ◌∷◌, Option, none, some, ◌==◌, ◌!=◌, if◌then◌else◌, inc64,
}
use cpp_robot_middleware.ErrorCode.{ErrorCode, ok, invalid_argument, duplicate_node, not_registered}
use cpp_robot_middleware.Map.{OrderedMap, lookup, insert, emplace, id_key, name_key}
use cpp_robot_middleware.Registry.{
  RegistryState, NodeRecord, LivenessState, alive, dead, is_empty, is_some,
}

pub record IdResult : Type 0 where
  pub error : ErrorCode
  pub id : ℕ
  pub session_id : ℕ

abbrev pub no_id : ErrorCode → IdResult
no_id e = record { error = e; id = 0; session_id = 0 }

abbrev pub new_node : RegistryState → ℕ → List ℕ → ℕ → NodeRecord
new_node s connection node_name now = record {
  node_id = s.next_node_id;
  session_id = s.next_session_id;
  node_name = node_name;
  control_connection = connection;
  heartbeat_connection = 0;
  liveness = alive;
  last_seen = now;
  publisher_endpoints = [];
  subscriber_endpoints = [];
}

unfoldable pub register_node : RegistryState → ℕ → List ℕ → ℕ → RegistryState × IdResult
register_node s connection node_name now =
    if is_empty node_name
    then (s, no_id invalid_argument)
    else if is_some (lookup node_name s.node_names)
    then (s, no_id duplicate_node)
    else (
      record s {
        next_node_id = inc64 s.next_node_id;
        next_session_id = inc64 s.next_session_id;
        nodes = emplace s.next_node_id (new_node s connection node_name now) s.nodes;
        node_names = emplace node_name s.next_node_id s.node_names;
      },
      record { error = ok; id = s.next_node_id; session_id = s.next_session_id },
    )

-- The node, when the connection is its control connection.
unfoldable pub owned_node : RegistryState → ℕ → ℕ → Option NodeRecord
owned_node s connection node_id = elim (lookup node_id s.nodes) [
  | none ↦ none
  | some node ↦ if node.control_connection != connection then none else some node
]

abbrev pub set_node : RegistryState → ℕ → NodeRecord → RegistryState
set_node s node_id node = record s { nodes = insert node_id node s.nodes }

unfoldable pub attach_heartbeat : RegistryState → ℕ → ℕ → ℕ → RegistryState × ErrorCode
attach_heartbeat s connection node_id session_id = elim (lookup node_id s.nodes) [
  | none ↦ (s, not_registered)
  | some node ↦
      if node.session_id != session_id || connection == 0
      then (s, not_registered)
      else if node.heartbeat_connection != 0 && node.heartbeat_connection != connection
      then (s, not_registered)
      else (set_node s node_id (record node { heartbeat_connection = connection }), ok)
]

unfoldable pub heartbeat :
    RegistryState → ℕ → ℕ → ℕ → ℕ → RegistryState × (ErrorCode × LivenessState)
heartbeat s connection node_id session_id now = elim (lookup node_id s.nodes) [
  | none ↦ (s, (not_registered, dead))
  | some node ↦
      if node.session_id != session_id
      then (s, (not_registered, dead))
      else if connection != node.control_connection && connection != node.heartbeat_connection
      then (s, (not_registered, node.liveness))
      else (
        record (set_node s node_id (record node { last_seen = now; liveness = alive })) {
          metrics = record s.metrics { heartbeat_received = inc64 s.metrics.heartbeat_received };
        },
        (ok, alive),
      )
]

-- The loop of `detachHeartbeatConnection` over the nodes.
unfoldable pub detach_all : ℕ → OrderedMap ℕ NodeRecord → OrderedMap ℕ NodeRecord
detach_all connection [] = []
detach_all connection ((i, node) ∷ nodes) =
    (
      i,
      (if node.heartbeat_connection == connection
          then record node { heartbeat_connection = 0 }
          else node),
    )
    ∷ detach_all connection nodes

unfoldable pub detach_heartbeat_connection : RegistryState → ℕ → RegistryState
detach_heartbeat_connection s connection = record s { nodes = detach_all connection s.nodes }
