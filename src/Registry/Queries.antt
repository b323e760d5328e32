-- ===== src/Registry/Queries.antt =====
-- The questions: `resolve`, `listNodes`, `listTopics`, `queryTopic`, `statsSnapshot`,
-- `publisherEndpoint` and `node`, registry/src/registry_state.cpp.
use cpp_robot_middleware.Prelude.{
  ℕ, List, [], ◌∷◌, Option, none, some, and_then, length, ◌!=◌, if◌then◌else◌, bytes_lt,
}
use cpp_robot_middleware.ErrorCode.{ErrorCode, ok, endpoint_not_found, topic_not_found}
use cpp_robot_middleware.Map.{OrderedMap, lookup, id_key, name_key}
use cpp_robot_middleware.Registry.{
  RegistryState, NodeRecord, TopicRecord, PublisherEndpoint, SubscriberEndpoint, SharedPoolMetadata,
  SharedQueueMetadata, no_pool, is_empty, unix_domain_socket,
}
use cpp_robot_middleware.Registry.Nodes.{owned_node}

pub record DiscoveredSubscriber : Type 0 where
  pub endpoint_id : ℕ
  pub data_socket_path : List ℕ
  pub max_message_size : ℕ
  pub queue : SharedQueueMetadata

pub record DiscoveryResult : Type 0 where
  pub error : ErrorCode
  pub topic_id : ℕ
  pub transport : ℕ
  pub pool : SharedPoolMetadata
  pub subscribers : List DiscoveredSubscriber

abbrev pub discovered : SubscriberEndpoint → DiscoveredSubscriber
discovered r = record {
  endpoint_id = r.endpoint_id;
  data_socket_path = r.data_socket_path;
  max_message_size = r.max_message_size;
  queue = r.queue;
}

-- The loop over the subscribers of the topic.
unfoldable pub discover_all :
    OrderedMap ℕ SubscriberEndpoint → List ℕ → Option (List DiscoveredSubscriber)
discover_all subscribers [] = some []
discover_all subscribers (e ∷ es) =
    and_then (lookup e subscribers)
      (λ r. and_then (discover_all subscribers es) (λ found. some (discovered r ∷ found)))

abbrev pub discovery : ErrorCode → TopicRecord → List DiscoveredSubscriber → DiscoveryResult
discovery e topic found = record {
  error = e;
  topic_id = topic.topic_id;
  transport = topic.transport;
  pool = topic.pool;
  subscribers = found;
}

abbrev pub no_discovery : DiscoveryResult
no_discovery = record {
  error = endpoint_not_found;
  topic_id = 0;
  transport = unix_domain_socket;
  pool = no_pool;
  subscribers = [];
}

unfoldable pub resolve : RegistryState → ℕ → ℕ → ℕ → Option DiscoveryResult
resolve s connection node_id e = elim (owned_node s connection node_id) [
  | none ↦ some no_discovery
  | some node ↦ elim (lookup e s.publishers) [
    | none ↦ some no_discovery
    | some p ↦
        if p.node_id != node_id
        then some no_discovery
        else and_then (lookup p.topic_id s.topics) (λ topic.
          if is_empty topic.subscriber_endpoints
          then some (discovery topic_not_found topic [])
          else and_then (discover_all s.subscribers topic.subscriber_endpoints)
              (λ found. some (discovery ok topic found)))
  ]
]

abbrev pub values : {V : Type 0} → OrderedMap ℕ V → List V
values [] = []
values ((i, v) ∷ m) = v ∷ values m

-- `std::sort` by a name, as insertion.
abbrev pub insert_by : {V : Type 0} → (V → List ℕ) → V → List V → List V
insert_by name v [] = v ∷ []
insert_by name v (w ∷ vs) =
    let rest = insert_by name v vs in if bytes_lt (name w) (name v) then w ∷ rest else v ∷ w ∷ vs

abbrev pub sort_by : {V : Type 0} → (V → List ℕ) → List V → List V
sort_by name [] = []
sort_by name (v ∷ vs) = insert_by name v (sort_by name vs)

unfoldable pub list_nodes : RegistryState → List NodeRecord
list_nodes s = sort_by (λ (r : NodeRecord). r.node_name) (values s.nodes)

unfoldable pub list_topics : RegistryState → List TopicRecord
list_topics s = sort_by (λ (r : TopicRecord). r.topic_name) (values s.topics)

-- The outer `none` is the exception, the inner one `std::nullopt`.
unfoldable pub query_topic : RegistryState → List ℕ → Option (Option TopicRecord)
query_topic s topic_name = elim (lookup topic_name s.topic_names) [
  | none ↦ some none
  | some t ↦ and_then (lookup t s.topics) (λ topic. some (some topic))
]

pub record RegistryStatsSnapshot : Type 0 where
  pub node_count : ℕ
  pub topic_count : ℕ
  pub publisher_count : ℕ
  pub subscriber_count : ℕ
  pub heartbeat_received : ℕ
  pub suspected_count : ℕ
  pub dead_node_count : ℕ

unfoldable pub stats_snapshot : RegistryState → RegistryStatsSnapshot
stats_snapshot s = record {
  node_count = length s.nodes;
  topic_count = length s.topics;
  publisher_count = length s.publishers;
  subscriber_count = length s.subscribers;
  heartbeat_received = s.metrics.heartbeat_received;
  suspected_count = s.metrics.suspected_count;
  dead_node_count = s.metrics.dead_node_count;
}

unfoldable pub publisher_endpoint : RegistryState → ℕ → Option PublisherEndpoint
publisher_endpoint s e = lookup e s.publishers

unfoldable pub node : RegistryState → ℕ → Option NodeRecord
node s node_id = lookup node_id s.nodes
