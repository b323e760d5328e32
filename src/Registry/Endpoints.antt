-- ===== src/Registry/Endpoints.antt =====
-- Endpoints: `advertise`, `unadvertise`, `subscribe`, `unsubscribe` and `unregisterNode`,
-- registry/src/registry_state.cpp.
use cpp_robot_middleware.Prelude.{
  ℕ, Bool, true, false, ◌&&◌, ◌||◌, not, List, [], ◌∷◌, Option, none, some, and_then, min, ◌!=◌,
  if◌then◌else◌, ltb, inc64, u32_max, bytes_eq,
}
use cpp_robot_middleware.ErrorCode.{
  ErrorCode, ok, invalid_argument, not_registered, type_mismatch, transport_mismatch,
  duplicate_publisher, endpoint_not_found,
}
use cpp_robot_middleware.Map.{lookup, insert, emplace, erase, include, exclude, id_key, name_key}
use cpp_robot_middleware.Registry.{
  RegistryState, NodeRecord, TopicRecord, SharedPoolMetadata, SharedQueueMetadata, no_pool,
  is_empty, is_some, valid_transport, valid_pool_metadata, valid_queue_metadata,
}
use cpp_robot_middleware.Registry.Nodes.{owned_node}
use cpp_robot_middleware.Registry.Topics.{
  find_or_create_topic, recompute_topic_max_message_size, erase_topic_if_empty,
}

pub record EndpointResult : Type 0 where
  pub error : ErrorCode
  pub topic_id : ℕ
  pub endpoint_id : ℕ
  pub pool : SharedPoolMetadata

abbrev pub refused : ErrorCode → ℕ → EndpointResult
refused e topic_id = record { error = e; topic_id = topic_id; endpoint_id = 0; pool = no_pool }

-- What a caller of `advertise` or `subscribe` says of the topic.
pub record TopicRequest : Type 0 where
  pub topic_name : List ℕ
  pub type_name : List ℕ
  pub type_hash : List ℕ
  pub max_message_size : ℕ
  pub transport : ℕ

abbrev pub valid_request : TopicRequest → Bool
valid_request r = not (
    is_empty r.topic_name
    || is_empty r.type_name
    || is_empty r.type_hash
    || ltb u32_max r.max_message_size
    || not (valid_transport r.transport))

-- What an existing topic has against a request: the error, or none. `exclusive` for a publisher.
abbrev pub topic_conflict : Bool → TopicRequest → TopicRecord → Option ErrorCode
topic_conflict exclusive r topic =
    if not (bytes_eq topic.type_name r.type_name) || not (bytes_eq topic.type_hash r.type_hash)
    then some type_mismatch
    else if topic.transport != r.transport
    then some transport_mismatch
    else if exclusive && is_some topic.publisher_endpoint
    then some duplicate_publisher
    else none

-- The conflict with the topic of the requested name, and its number.
unfoldable pub conflict : RegistryState → Bool → TopicRequest → Option (Option (ErrorCode × ℕ))
conflict s exclusive r = elim (lookup r.topic_name s.topic_names) [
  | none ↦ some none
  | some t ↦ and_then (lookup t s.topics) (λ topic.
      some (elim (topic_conflict exclusive r topic) [
        | none ↦ none
        | some e ↦ some (e, topic.topic_id)
      ]))
]

abbrev pub find_for : RegistryState → TopicRequest → Option (RegistryState × TopicRecord)
find_for s r =
    find_or_create_topic s r.topic_name r.type_name r.type_hash r.max_message_size r.transport

-- The endpoint of a publisher is entered in the three maps.
abbrev pub link_publisher :
    RegistryState → ℕ → NodeRecord → TopicRecord → TopicRequest → SharedPoolMetadata → RegistryState
link_publisher s node_id node topic r pool =
    let e = s.next_endpoint_id in
    record s {
      next_endpoint_id = inc64 e;
      publishers =
          emplace e
            (record {
              endpoint_id = e;
              node_id = node_id;
              topic_id = topic.topic_id;
              max_message_size = r.max_message_size;
              transport = r.transport;
              pool = pool;
            })
            s.publishers;
      topics =
          insert topic.topic_id
            (record topic {
              publisher_endpoint = some e;
              pool = pool;
              max_message_size = min topic.max_message_size r.max_message_size;
            })
            s.topics;
      nodes =
          insert node_id (record node { publisher_endpoints = include e node.publisher_endpoints })
            s.nodes;
    }

unfoldable pub advertise :
    RegistryState
    → ℕ
    → ℕ
    → TopicRequest
    → SharedPoolMetadata
    → Option (RegistryState × EndpointResult)
advertise s connection node_id r pool = elim (owned_node s connection node_id) [
  | none ↦ some (s, refused not_registered 0)
  | some node ↦
      if not (valid_request r && valid_pool_metadata r.transport pool)
      then some (s, refused invalid_argument 0)
      else and_then (conflict s true r) (λ c. elim c [
        | some (e, t) ↦ some (s, refused e t)
        | none ↦ and_then (find_for s r) (λ (s', topic). some (
          link_publisher s' node_id node topic r pool,
          record {
            error = ok;
            topic_id = topic.topic_id;
            endpoint_id = s'.next_endpoint_id;
            pool = pool;
          },
        ))
      ])
]

-- The endpoint of a subscriber is entered in the three maps.
abbrev pub link_subscriber :
    RegistryState
    → ℕ
    → NodeRecord
    → TopicRecord
    → TopicRequest
    → List ℕ
    → SharedQueueMetadata
    → RegistryState
link_subscriber s node_id node topic r path queue =
    let e = s.next_endpoint_id in
    record s {
      next_endpoint_id = inc64 e;
      subscribers =
          emplace e
            (record {
              endpoint_id = e;
              node_id = node_id;
              topic_id = topic.topic_id;
              data_socket_path = path;
              max_message_size = r.max_message_size;
              transport = r.transport;
              queue = queue;
            })
            s.subscribers;
      topics =
          insert topic.topic_id
            (record topic {
              subscriber_endpoints = include e topic.subscriber_endpoints;
              max_message_size = min topic.max_message_size r.max_message_size;
            })
            s.topics;
      nodes =
          insert node_id
            (record node { subscriber_endpoints = include e node.subscriber_endpoints }) s.nodes;
    }

unfoldable pub subscribe :
    RegistryState
    → ℕ
    → ℕ
    → TopicRequest
    → List ℕ
    → SharedQueueMetadata
    → Option (RegistryState × EndpointResult)
subscribe s connection node_id r path queue = elim (owned_node s connection node_id) [
  | none ↦ some (s, refused not_registered 0)
  | some node ↦
      if not (valid_request r && not (is_empty path) && valid_queue_metadata r.transport queue)
      then some (s, refused invalid_argument 0)
      else and_then (conflict s false r) (λ c. elim c [
        | some (e, t) ↦ some (s, refused e t)
        | none ↦ and_then (find_for s r) (λ (s', topic). some (
          link_subscriber s' node_id node topic r path queue,
          record {
            error = ok;
            topic_id = topic.topic_id;
            endpoint_id = s'.next_endpoint_id;
            pool = topic.pool;
          },
        ))
      ])
]

-- The two last steps of removing an endpoint.
unfoldable pub settle_topic : RegistryState → ℕ → Option RegistryState
settle_topic s t =
    and_then (recompute_topic_max_message_size s t) (λ s'. some (erase_topic_if_empty s' t))

-- A publisher leaves the three maps.
abbrev pub unlink_publisher : RegistryState → ℕ → NodeRecord → ℕ → ℕ → TopicRecord → RegistryState
unlink_publisher s node_id node e t topic = record s {
  nodes =
      insert node_id (record node { publisher_endpoints = exclude e node.publisher_endpoints })
        s.nodes;
  publishers = erase e s.publishers;
  topics = insert t (record topic { publisher_endpoint = none; pool = no_pool }) s.topics;
}

unfoldable pub unadvertise : RegistryState → ℕ → ℕ → ℕ → Option (RegistryState × ErrorCode)
unadvertise s connection node_id e = elim (owned_node s connection node_id) [
  | none ↦ some (s, endpoint_not_found)
  | some node ↦ elim (lookup e s.publishers) [
    | none ↦ some (s, endpoint_not_found)
    | some p ↦
        if p.node_id != node_id
        then some (s, endpoint_not_found)
        else and_then (lookup p.topic_id s.topics) (λ topic.
          and_then (settle_topic (unlink_publisher s node_id node e p.topic_id topic) p.topic_id)
            (λ s'. some (s', ok)))
  ]
]

-- A subscriber leaves the three maps.
abbrev pub unlink_subscriber : RegistryState → ℕ → NodeRecord → ℕ → ℕ → TopicRecord → RegistryState
unlink_subscriber s node_id node e t topic = record s {
  nodes =
      insert node_id (record node { subscriber_endpoints = exclude e node.subscriber_endpoints })
        s.nodes;
  subscribers = erase e s.subscribers;
  topics =
      insert t (record topic { subscriber_endpoints = exclude e topic.subscriber_endpoints })
        s.topics;
}

unfoldable pub unsubscribe : RegistryState → ℕ → ℕ → ℕ → Option (RegistryState × ErrorCode)
unsubscribe s connection node_id e = elim (owned_node s connection node_id) [
  | none ↦ some (s, endpoint_not_found)
  | some node ↦ elim (lookup e s.subscribers) [
    | none ↦ some (s, endpoint_not_found)
    | some p ↦
        if p.node_id != node_id
        then some (s, endpoint_not_found)
        else and_then (lookup p.topic_id s.topics) (λ topic.
          and_then (settle_topic (unlink_subscriber s node_id node e p.topic_id topic) p.topic_id)
            (λ s'. some (s', ok)))
  ]
]

-- The two loops of `unregisterNode`, whose results are not used.
unfoldable pub unadvertise_all : List ℕ → RegistryState → ℕ → ℕ → Option RegistryState
unadvertise_all [] s connection node_id = some s
unadvertise_all (e ∷ es) s connection node_id =
    and_then (unadvertise s connection node_id e)
      (λ out. unadvertise_all es out.0 connection node_id)

unfoldable pub unsubscribe_all : List ℕ → RegistryState → ℕ → ℕ → Option RegistryState
unsubscribe_all [] s connection node_id = some s
unsubscribe_all (e ∷ es) s connection node_id =
    and_then (unsubscribe s connection node_id e)
      (λ out. unsubscribe_all es out.0 connection node_id)

abbrev pub erase_node : RegistryState → ℕ → List ℕ → RegistryState
erase_node s node_id node_name = record s {
  node_names = erase node_name s.node_names;
  nodes = erase node_id s.nodes;
}

-- The loops leave the name of the node as it is.
unfoldable pub unregister_node : RegistryState → ℕ → ℕ → Option (RegistryState × ErrorCode)
unregister_node s connection node_id = elim (owned_node s connection node_id) [
  | none ↦ some (s, not_registered)
  | some node ↦ and_then (unadvertise_all node.publisher_endpoints s connection node_id) (λ s₁.
      and_then (unsubscribe_all node.subscriber_endpoints s₁ connection node_id) (λ s₂.
        and_then (lookup node_id s₂.nodes)
          (λ left. some (erase_node s₂ node_id left.node_name, ok))))
]
