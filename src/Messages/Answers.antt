-- ===== src/Messages/Answers.antt =====
-- The bodies of the answers: what the server writes, and what the client reads. `none` is the client's
-- exception for a malformed body.
use cpp_robot_middleware.Prelude.{
  ℕ, zero, suc, ◌%◌, ◌^◌, not, ◌||◌, List, [], ◌∷◌, ◌++◌, Option, none, some, and_then, length,
  ◌==◌, if◌then◌else◌,
}
use cpp_robot_middleware.PoolProtocol.{PoolDescriptor}
use cpp_robot_middleware.QueueProtocol.{QueueDescriptor}
use cpp_robot_middleware.Registry.{SharedPoolMetadata, is_empty}
use cpp_robot_middleware.Registry.Endpoints.{EndpointResult}
use cpp_robot_middleware.Registry.Nodes.{IdResult}
use cpp_robot_middleware.Registry.Queries.{DiscoveredSubscriber, DiscoveryResult}
use cpp_robot_middleware.Messages.{Item, integer, text, Kind, string, u16, u32, u64, read_items}
use cpp_robot_middleware.Messages.Requests.{read_all}

-- The items of a sequence of records.
unfoldable pub each : {A : Type 0} → (A → List Item) → List A → List Item
each items_of [] = []
each items_of (x ∷ xs) = items_of x ++ each items_of xs

-- A loop of a reader: so many records, and what is left.
unfoldable pub read_each :
    {A : Type 0} → ℕ → List Kind → (List Item → Option A) → List ℕ → Option (List A × List ℕ)
read_each zero kinds build buf = some ([], buf)
read_each (suc n) kinds build buf = and_then (read_items kinds buf) (λ (items, rest).
    and_then (build items)
      (λ x. and_then (read_each n kinds build rest) (λ (xs, left). some (x ∷ xs, left))))

abbrev pub pool_items : SharedPoolMetadata → List Item
pool_items pool =
    text pool.shm_name
    ∷ integer 8 pool.pool_id
    ∷ integer 8 pool.segment_size
    ∷ integer 2 pool.layout_version
    ∷ []

-- The answer to RegisterNode.
unfoldable pub registration_items : IdResult → List Item
registration_items r = integer 8 r.id ∷ integer 8 r.session_id ∷ []

pub record RegistryRegistration : Type 0 where
  pub node_id : ℕ
  pub session_id : ℕ

abbrev pub of_registration : List Item → Option RegistryRegistration
of_registration (integer a node ∷ integer b session ∷ []) =
    if node == 0 || session == 0
    then none
    else some (record { node_id = node; session_id = session })
of_registration _ = none

unfoldable pub read_registration : List ℕ → Option RegistryRegistration
read_registration = read_all (u64 ∷ u64 ∷ []) of_registration

-- The answer to AdvertiseTopic and SubscribeTopic.
unfoldable pub endpoint_body : EndpointResult → List Item
endpoint_body r = integer 8 r.topic_id ∷ integer 8 r.endpoint_id ∷ pool_items r.pool

pub record RegistryEndpoint : Type 0 where
  pub topic_id : ℕ
  pub endpoint_id : ℕ
  pub pool : PoolDescriptor

-- The pool as the client keeps it, with the topic.
abbrev pub pool_of : ℕ → SharedPoolMetadata → PoolDescriptor
pool_of topic_id pool = record {
  shm_name = pool.shm_name;
  pool_id = pool.pool_id;
  segment_size = pool.segment_size;
  topic_id = topic_id;
  layout_version = pool.layout_version;
}

abbrev pub of_endpoint : List Item → Option RegistryEndpoint
of_endpoint
      (integer a topic
        ∷ integer b endpoint
        ∷ text shm
        ∷ integer c id
        ∷ integer d segment
        ∷ integer e layout
        ∷ []) =
    some (record {
      topic_id = topic;
      endpoint_id = endpoint;
      pool = pool_of topic (record {
        shm_name = shm;
        pool_id = id;
        segment_size = segment;
        layout_version = layout;
      });
    })
of_endpoint _ = none

unfoldable pub read_endpoint : List ℕ → Option RegistryEndpoint
read_endpoint = read_all (u64 ∷ u64 ∷ string ∷ u64 ∷ u64 ∷ u16 ∷ []) of_endpoint

-- The answer to ResolveEndpoint.
unfoldable pub subscriber_items : DiscoveredSubscriber → List Item
subscriber_items r =
    integer 8 r.endpoint_id
    ∷ text r.data_socket_path
    ∷ integer 8 r.max_message_size
    ∷ text r.queue.shm_name
    ∷ integer 8 r.queue.queue_id
    ∷ integer 8 r.queue.segment_size
    ∷ integer 4 r.queue.capacity
    ∷ integer 2 r.queue.layout_version
    ∷ integer 2 r.queue.overflow_policy
    ∷ integer 8 r.queue.block_timeout_ms
    ∷ []

unfoldable pub discovery_head : DiscoveryResult → List Item
discovery_head d =
    integer 8 d.topic_id
    ∷ integer 2 d.transport
    ∷ (pool_items d.pool ++ integer 4 (length d.subscribers % 2 ^ 32) ∷ [])

unfoldable pub discovery_body : DiscoveryResult → List Item
discovery_body d = discovery_head d ++ each subscriber_items d.subscribers

pub record RegistrySubscriber : Type 0 where
  pub endpoint_id : ℕ
  pub data_socket_path : List ℕ
  pub max_message_size : ℕ
  pub queue : QueueDescriptor

pub record RegistryDiscovery : Type 0 where
  pub topic_id : ℕ
  pub transport : ℕ
  pub pool : PoolDescriptor
  pub subscribers : List RegistrySubscriber

unfoldable pub of_subscriber : List Item → Option RegistrySubscriber
of_subscriber
      (integer a endpoint
        ∷ text path
        ∷ integer b size
        ∷ text shm
        ∷ integer c id
        ∷ integer d segment
        ∷ integer e capacity
        ∷ integer f layout
        ∷ integer g policy
        ∷ integer h timeout
        ∷ []) =
    some (record {
      endpoint_id = endpoint;
      data_socket_path = path;
      max_message_size = size;
      queue = record {
        shm_name = shm;
        queue_id = id;
        segment_size = segment;
        capacity = capacity;
        layout_version = layout;
        overflow_policy = policy;
        block_timeout_ms = timeout;
      };
    })
of_subscriber _ = none

abbrev pub subscriber_kinds : List Kind
subscriber_kinds = u64 ∷ string ∷ u64 ∷ string ∷ u64 ∷ u64 ∷ u32 ∷ u16 ∷ u16 ∷ u64 ∷ []

-- The head: all but the subscribers, and their number.
unfoldable pub of_discovery : List Item → Option (RegistryDiscovery × ℕ)
of_discovery
      (integer a topic
        ∷ integer b transport
        ∷ text shm
        ∷ integer c id
        ∷ integer d segment
        ∷ integer e layout
        ∷ integer f count
        ∷ []) =
    some (
      record {
        topic_id = topic;
        transport = transport;
        pool = pool_of topic (record {
          shm_name = shm;
          pool_id = id;
          segment_size = segment;
          layout_version = layout;
        });
        subscribers = [];
      },
      count,
    )
of_discovery _ = none

abbrev pub discovery_kinds : List Kind
discovery_kinds = u64 ∷ u16 ∷ string ∷ u64 ∷ u64 ∷ u16 ∷ u32 ∷ []

unfoldable pub read_discovery : List ℕ → Option RegistryDiscovery
read_discovery buf = and_then (read_items discovery_kinds buf) (λ (items, rest).
    and_then (of_discovery items) (λ (head, count).
      and_then (read_each count subscriber_kinds of_subscriber rest) (λ (found, left).
        if is_empty found || not (is_empty left)
        then none
        else some (record head { subscribers = found }))))
