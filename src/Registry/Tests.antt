-- ===== src/Registry/Tests.antt =====
-- A registry with a publisher and a subscriber on one topic, and the theorems at it.
use cpp_robot_middleware.Prelude.{
  ℕ, ◌≡◌, ◌≢◌, refl, sym, subst, ◌∙◌, true, false, not, ◌&&◌, ◌==◌, if◌then◌else◌, List, [], ◌∷◌,
  none, some, arith,
}
use cpp_robot_middleware.ErrorCode.{LivenessConfig, ok, topic_not_found, valid_liveness_config}
use cpp_robot_middleware.Wire.{is_valid_shared_memory_name}
use cpp_robot_middleware.Map.{lookup, has, id_key, name_key}
use cpp_robot_middleware.Registry.{
  RegistryState, NodeRecord, TopicRecord, PublisherEndpoint, SubscriberEndpoint,
  SharedQueueMetadata, alive, no_pool, is_empty, new_registry, empty_state, valid_transport,
  valid_pool_metadata, valid_queue_metadata,
}
use cpp_robot_middleware.Registry.Liveness.{LivenessUpdate, overdue, evaluate_liveness}
use cpp_robot_middleware.Registry.Cleanup.{DeadNodeCleanup, disconnect_connection}
use cpp_robot_middleware.Registry.Queries.{DiscoveryResult, resolve, query_topic}
use cpp_robot_middleware.Registry.Invariant.{holds, IsValid}
use cpp_robot_middleware.Registry.Runs.{run_total}
use cpp_robot_middleware.Registry.Watch.{outlived, late, evaluate_liveness_lem}
use cpp_robot_middleware.Registry.Removal.{Leaves}
use cpp_robot_middleware.Registry.Unadvertise.{unadvertise_lem}
use cpp_robot_middleware.Registry.Unregister.{Unregistered, unregister_node_lem}
use cpp_robot_middleware.Registry.Discovery.{Lists, resolve_lem}
use cpp_robot_middleware.Registry.Outcomes.{is_ok, subscriber_of, advertise_lem, subscribe_lem}
use cpp_robot_middleware.Registry.Members.{member_of}
use cpp_robot_middleware.Registry.Partings.{disconnect_connection_lem}
use cpp_robot_middleware.Registry.Reached.{run-recompute, run-sole_publisher}
use cpp_robot_middleware.Registry.Nodes.{register_node, owned_node}
use cpp_robot_middleware.Registry.Topics.{
  find_or_create_topic, set_topic, recompute_topic_max_message_size,
}
use cpp_robot_middleware.Registry.Endpoints.{
  TopicRequest, EndpointResult, valid_request, conflict, advertise, subscribe, unadvertise,
  unregister_node,
}
use cpp_robot_middleware.Registry.Calls.{Call, register, publish, listen, step, run}

abbrev pub config : LivenessConfig
config = record { heartbeat_interval = 100; suspect_timeout = 300; dead_timeout = 1000 }

abbrev pub request : TopicRequest
request = record {
  topic_name = 116 ∷ [];
  type_name = 84 ∷ [];
  type_hash = 104 ∷ [];
  max_message_size = 64;
  transport = 1;
}

abbrev pub no_queue : SharedQueueMetadata
no_queue = record {
  shm_name = [];
  queue_id = 0;
  segment_size = 0;
  capacity = 0;
  layout_version = 0;
  overflow_policy = 0;
  block_timeout_ms = 0;
}

-- Node 1 on connection 7 publishes, node 2 on connection 8 listens.
abbrev calls : List Call
calls =
    register 7 (97 ∷ []) 0
    ∷ register 8 (98 ∷ []) 400000000
    ∷ publish 7 1 request no_pool
    ∷ listen 8 2 (record request { max_message_size = 48 }) (112 ∷ []) no_queue
    ∷ []

abbrev pub publisher_node : NodeRecord
publisher_node = record {
  node_id = 1;
  session_id = 1;
  node_name = 97 ∷ [];
  control_connection = 7;
  heartbeat_connection = 0;
  liveness = alive;
  last_seen = 0;
  publisher_endpoints = 1 ∷ [];
  subscriber_endpoints = [];
}

abbrev pub subscriber_node : NodeRecord
subscriber_node = record {
  node_id = 2;
  session_id = 2;
  node_name = 98 ∷ [];
  control_connection = 8;
  heartbeat_connection = 0;
  liveness = alive;
  last_seen = 400000000;
  publisher_endpoints = [];
  subscriber_endpoints = 2 ∷ [];
}

abbrev pub the_topic : TopicRecord
the_topic = record {
  topic_id = 1;
  topic_name = 116 ∷ [];
  type_name = 84 ∷ [];
  type_hash = 104 ∷ [];
  transport = 1;
  max_message_size = 48;
  publisher_endpoint = some 1;
  subscriber_endpoints = 2 ∷ [];
  pool = no_pool;
}

abbrev pub the_publisher : PublisherEndpoint
the_publisher = record {
  endpoint_id = 1;
  node_id = 1;
  topic_id = 1;
  max_message_size = 64;
  transport = 1;
  pool = no_pool;
}

abbrev pub the_subscriber : SubscriberEndpoint
the_subscriber = record {
  endpoint_id = 2;
  node_id = 2;
  topic_id = 1;
  data_socket_path = 112 ∷ [];
  max_message_size = 48;
  transport = 1;
  queue = no_queue;
}

-- The state after the calls.
abbrev pub live : RegistryState
live = record {
  next_node_id = 3;
  next_session_id = 3;
  next_topic_id = 2;
  next_endpoint_id = 3;
  nodes = (1, publisher_node) ∷ (2, subscriber_node) ∷ [];
  node_names = (97 ∷ [], 1) ∷ (98 ∷ [], 2) ∷ [];
  topics = (1, the_topic) ∷ [];
  topic_names = (116 ∷ [], 1) ∷ [];
  publishers = (1, the_publisher) ∷ [];
  subscribers = (2, the_subscriber) ∷ [];
  liveness = config;
  metrics = record { heartbeat_received = 0; suspected_count = 0; dead_node_count = 0 };
}

run-calls : run (empty_state config) calls ≡ some live
unfolding run step register_node advertise subscribe owned_node conflict find_or_create_topic
    valid_transport valid_pool_metadata valid_queue_metadata is_valid_shared_memory_name
run-calls = refl

new_one : new_registry config ≡ some (empty_state config)
unfolding new_registry valid_liveness_config
new_one = refl

run_total_example : (s' : RegistryState) × (run (empty_state config) calls ≡ some s') × IsValid s'
run_total_example = run_total config (empty_state config) calls new_one (omega arith)

pub live-IsValid : IsValid live
live-IsValid =
    let (s', runs, v) = run_total config (empty_state config) calls new_one (omega arith) in
    let same : s' ≡ live = some_inj (sym runs ∙ run-calls) in
    subst (λ (u : RegistryState). IsValid u) same v
  where
    some_inj : {a b : RegistryState} → some a ≡ some b → a ≡ b
    some_inj h = cc

owned_live : owned_node live 7 1 ≡ some publisher_node
unfolding owned_node
owned_live = refl

-- One second after the first node's last sign, 600 ms after the second's.
evaluate_liveness_lem_example :
    (s' : RegistryState) × (u : LivenessUpdate) × (evaluate_liveness live 1000000000 ≡ some (s', u))
    × IsValid s'
    × ((j : ℕ) → lookup j s'.nodes ≡ outlived config 1000000000 (lookup j live.nodes))
    × ((j : ℕ) → has j u.suspected_nodes ≡ holds (lookup j live.nodes) (late config 1000000000))
    × ((x : ℕ)
        → lookup x s'.publishers ≡ (
            if holds
              (lookup x live.publishers)
              (λ p. holds (lookup p.node_id live.nodes) (overdue 1000000000 1000))
            then none
            else lookup x live.publishers))
    × ((x : ℕ)
        → lookup x s'.subscribers ≡ (
            if holds
              (lookup x live.subscribers)
              (λ p. holds (lookup p.node_id live.nodes) (overdue 1000000000 1000))
            then none
            else lookup x live.subscribers))
evaluate_liveness_lem_example = evaluate_liveness_lem live live-IsValid 1000000000

unregister_node_lem_example :
    (s' : RegistryState) × (unregister_node live 7 1 ≡ some (s', ok)) × Unregistered live 1 s'
unregister_node_lem_example = unregister_node_lem live 7 1 live-IsValid owned_live

unadvertise_lem_example :
    (s' : RegistryState) × (unadvertise live 7 1 1 ≡ some (s', ok))
    × Leaves live 1 publisher_node s'
    × ((x : ℕ)
        → lookup x s'.publishers ≡ (if x == 1 && true then none else lookup x live.publishers))
    × (s'.subscribers ≡ live.subscribers)
unadvertise_lem_example = unadvertise_lem live live-IsValid 7 1 1 owned_live

-- Two topics of one node; the third call asks for a second publisher of the first topic.
abbrev advertisements : List Call
advertisements =
    register 7 (97 ∷ []) 0
    ∷ publish 7 1 request no_pool
    ∷ publish 7 1 (record request { topic_name = 117 ∷ [] }) no_pool
    ∷ publish 7 1 request no_pool
    ∷ []

abbrev second_publisher : PublisherEndpoint
second_publisher = record the_publisher { endpoint_id = 2; topic_id = 2 }

abbrev two_topics : RegistryState
two_topics = record {
  next_node_id = 2;
  next_session_id = 2;
  next_topic_id = 3;
  next_endpoint_id = 3;
  nodes = (1, record publisher_node { publisher_endpoints = 1 ∷ 2 ∷ [] }) ∷ [];
  node_names = (97 ∷ [], 1) ∷ [];
  topics =
      (1, record the_topic { max_message_size = 64; subscriber_endpoints = [] })
      ∷ (
        2,
        record the_topic {
          topic_id = 2;
          topic_name = 117 ∷ [];
          max_message_size = 64;
          publisher_endpoint = some 2;
          subscriber_endpoints = [];
        },
      )
      ∷ [];
  topic_names = (116 ∷ [], 1) ∷ (117 ∷ [], 2) ∷ [];
  publishers = (1, the_publisher) ∷ (2, second_publisher) ∷ [];
  subscribers = [];
  liveness = config;
  metrics = record { heartbeat_received = 0; suspected_count = 0; dead_node_count = 0 };
}

run-advertisements : run (empty_state config) advertisements ≡ some two_topics
unfolding run step register_node advertise owned_node conflict find_or_create_topic valid_transport
    valid_pool_metadata is_valid_shared_memory_name
run-advertisements = refl

run-sole_publisher_example : the_publisher.topic_id ≢ second_publisher.topic_id
run-sole_publisher_example =
    run-sole_publisher config (empty_state config) advertisements two_topics new_one (omega arith)
      run-advertisements 1 2 the_publisher second_publisher refl refl (omega arith)

resolve_lem_example :
    (d : DiscoveryResult) × (es : List ℕ) × (resolve live 7 1 1 ≡ some d)
    × (d.topic_id ≡ 1)
    × ((x : ℕ) → has x es ≡ holds (lookup x live.subscribers) (λ r. r.topic_id == 1))
    × Lists live.subscribers es d.subscribers
    × (d.error ≡ (if is_empty es then topic_not_found else ok))
resolve_lem_example =
    resolve_lem live 7 1 1 publisher_node the_publisher live-IsValid owned_live refl refl

asked : query_topic live (116 ∷ []) ≡ some (some the_topic)
unfolding query_topic
asked = refl

well_formed : (valid_request request && valid_pool_metadata 1 no_pool) ≡ true
unfolding valid_transport valid_pool_metadata
well_formed = refl

-- The topic has its publisher.
advertise_lem_example :
    (s' : RegistryState) × (res : EndpointResult) × (advertise live 7 1 request no_pool
      ≡ some (s', res))
    × (is_ok res.error ≡ false)
    × ((x : ℕ) → lookup x s'.publishers ≡ lookup x live.publishers)
    × (lookup (116 ∷ []) s'.topic_names ≡ some 1)
    × (s'.subscribers ≡ live.subscribers)
advertise_lem_example =
    advertise_lem live 7 1 request publisher_node (some the_topic) live-IsValid owned_live asked
      refl no_pool well_formed

well_formed_subscriber :
    (valid_request request && not (is_empty {A = ℕ} (113 ∷ [])) && valid_queue_metadata 1 no_queue)
    ≡ true
unfolding valid_transport valid_queue_metadata
well_formed_subscriber = refl

subscribe_lem_example :
    (s' : RegistryState) × (res : EndpointResult) × (subscribe live 7 1 request (113 ∷ []) no_queue
      ≡ some (s', res))
    × (is_ok res.error ≡ true)
    × ((x : ℕ)
        → lookup x s'.subscribers ≡ (
            if x == 3
            then some (subscriber_of live 1 request (113 ∷ []) no_queue res.topic_id)
            else lookup x live.subscribers))
    × (lookup (116 ∷ []) s'.topic_names ≡ some res.topic_id)
    × (s'.publishers ≡ live.publishers)
subscribe_lem_example =
    subscribe_lem live 7 1 request publisher_node (some the_topic) live-IsValid owned_live asked
      refl (113 ∷ []) no_queue well_formed_subscriber

disconnect_connection_lem_example :
    (s' : RegistryState) × (all : List DeadNodeCleanup) × (disconnect_connection live 7
      ≡ some (s', all))
    × IsValid s'
    × ((j : ℕ)
        → member_of (lookup j s'.nodes) ≡ (
            if holds (lookup j live.nodes) (λ r. r.control_connection == 7)
            then none
            else member_of (lookup j live.nodes)))
disconnect_connection_lem_example = disconnect_connection_lem live 7 live-IsValid

run-recompute_example : recompute_topic_max_message_size live 1 ≡ some (set_topic live 1 the_topic)
run-recompute_example =
    run-recompute config (empty_state config) calls live new_one (omega arith) run-calls 1 the_topic
      refl
