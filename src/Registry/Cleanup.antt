-- ===== src/Registry/Cleanup.antt =====
-- The removal of a dead node: `cleanupDeadNode` and `disconnectConnection`,
-- registry/src/registry_state.cpp.
use cpp_robot_middleware.Prelude.{
  ℕ, List, [], ◌∷◌, ◌++◌, Option, none, some, and_then, ◌==◌, if◌then◌else◌, inc64,
}
use cpp_robot_middleware.Map.{OrderedMap, lookup, id_key}
use cpp_robot_middleware.Registry.{
  RegistryState, NodeRecord, PublisherEndpoint, SubscriberEndpoint, SharedPoolMetadata,
  SharedQueueMetadata, is_empty,
}
use cpp_robot_middleware.Registry.Nodes.{detach_heartbeat_connection}
use cpp_robot_middleware.Registry.Endpoints.{unregister_node}

pub data PeerEventKind : Type 0 where
  publisher_dead subscriber_dead : PeerEventKind

pub record PeerEventRecord : Type 0 where
  pub kind : PeerEventKind
  pub target_node_id : ℕ
  pub target_endpoint_id : ℕ
  pub dead_endpoint_id : ℕ
  pub topic_id : ℕ
  pub resource_id : ℕ

pub record DeadNodeCleanup : Type 0 where
  pub node_id : ℕ
  pub session_id : ℕ
  pub control_connection : ℕ
  pub heartbeat_connection : ℕ
  pub pools : List SharedPoolMetadata
  pub queues : List SharedQueueMetadata
  pub socket_paths : List (List ℕ)
  pub peer_events : List PeerEventRecord

abbrev pub new_cleanup : NodeRecord → DeadNodeCleanup
new_cleanup node = record {
  node_id = node.node_id;
  session_id = node.session_id;
  control_connection = node.control_connection;
  heartbeat_connection = node.heartbeat_connection;
  pools = [];
  queues = [];
  socket_paths = [];
  peer_events = [];
}

-- The subscribers of the topic of a dead publisher are told.
unfoldable pub tell_subscribers :
    OrderedMap ℕ SubscriberEndpoint → ℕ → PublisherEndpoint → List ℕ → List PeerEventRecord
tell_subscribers subscribers e p [] = []
tell_subscribers subscribers e p (j ∷ js) =
    let rest = tell_subscribers subscribers e p js in
    elim (lookup j subscribers) [
      | none ↦ rest
      | some r ↦
          (record {
            kind = publisher_dead;
            target_node_id = r.node_id;
            target_endpoint_id = j;
            dead_endpoint_id = e;
            topic_id = p.topic_id;
            resource_id = p.pool.pool_id;
          })
          ∷ rest
    ]

-- The loop over the publishers of the node.
unfoldable pub collect_publishers :
    RegistryState → List ℕ → DeadNodeCleanup → Option DeadNodeCleanup
collect_publishers s [] c = some c
collect_publishers s (e ∷ es) c = elim (lookup e s.publishers) [
  | none ↦ collect_publishers s es c
  | some p ↦ and_then (lookup p.topic_id s.topics) (λ topic. collect_publishers s es (record c {
    pools = if is_empty p.pool.shm_name then c.pools else c.pools ++ p.pool ∷ [];
    peer_events = c.peer_events ++ tell_subscribers s.subscribers e p topic.subscriber_endpoints;
  }))
]

-- The publisher of the topic of a dead subscriber is told.
unfoldable pub tell_publisher :
    OrderedMap ℕ PublisherEndpoint → ℕ → SubscriberEndpoint → Option ℕ → List PeerEventRecord
tell_publisher publishers e r none = []
tell_publisher publishers e r (some i) = elim (lookup i publishers) [
  | none ↦ []
  | some p ↦
      (record {
        kind = subscriber_dead;
        target_node_id = p.node_id;
        target_endpoint_id = p.endpoint_id;
        dead_endpoint_id = e;
        topic_id = r.topic_id;
        resource_id = r.queue.queue_id;
      })
      ∷ []
]

-- The loop over the subscribers of the node.
unfoldable pub collect_subscribers :
    RegistryState → List ℕ → DeadNodeCleanup → Option DeadNodeCleanup
collect_subscribers s [] c = some c
collect_subscribers s (e ∷ es) c = elim (lookup e s.subscribers) [
  | none ↦ collect_subscribers s es c
  | some r ↦ and_then (lookup r.topic_id s.topics) (λ topic. collect_subscribers s es (record c {
    queues = if is_empty r.queue.shm_name then c.queues else c.queues ++ r.queue ∷ [];
    socket_paths = c.socket_paths ++ r.data_socket_path ∷ [];
    peer_events = c.peer_events ++ tell_publisher s.publishers e r topic.publisher_endpoint;
  }))
]

abbrev pub count_dead : RegistryState → RegistryState
count_dead s = record s {
  metrics = record s.metrics { dead_node_count = inc64 s.metrics.dead_node_count };
}

-- The result of the inner `unregisterNode` is not used.
unfoldable pub cleanup_dead_node :
    RegistryState → ℕ → Option (RegistryState × Option DeadNodeCleanup)
cleanup_dead_node s node_id = elim (lookup node_id s.nodes) [
  | none ↦ some (s, none)
  | some node ↦ and_then (collect_publishers s node.publisher_endpoints (new_cleanup node)) (λ c.
      and_then (collect_subscribers s node.subscriber_endpoints c) (λ cleanup.
        and_then (unregister_node s node.control_connection node.node_id)
          (λ out. some (count_dead out.0, some cleanup))))
]

-- The loop that `disconnectConnection` and `evaluateLiveness` make over the nodes they found.
unfoldable pub cleanup_all :
    RegistryState → List ℕ → List DeadNodeCleanup → Option (RegistryState × List DeadNodeCleanup)
cleanup_all s [] done = some (s, done)
cleanup_all s (i ∷ ids) done = and_then (cleanup_dead_node s i) (λ (s', cleanup). elim cleanup [
  | none ↦ cleanup_all s' ids done
  | some c ↦ cleanup_all s' ids (done ++ c ∷ [])
])

unfoldable pub nodes_of : ℕ → OrderedMap ℕ NodeRecord → List ℕ
nodes_of connection [] = []
nodes_of connection ((i, node) ∷ nodes) =
    let rest = nodes_of connection nodes in
    if node.control_connection == connection then i ∷ rest else rest

unfoldable pub disconnect_connection :
    RegistryState → ℕ → Option (RegistryState × List DeadNodeCleanup)
disconnect_connection s connection =
    and_then (cleanup_all s (nodes_of connection s.nodes) []) (λ (s', cleanups).
      some
        ((if is_empty cleanups then detach_heartbeat_connection s' connection else s'), cleanups))
