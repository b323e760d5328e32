-- ===== src/Registry.antt =====
-- The registry's state, registry/include/mw/registry/registry_state.hpp: its records. Names are
-- `std::string` values as lists of bytes, times are nanoseconds of the monotonic clock. An operation
-- returns the state that it leaves behind; `none` is `std::out_of_range`, which `map::at` throws.
pub mod Nodes
pub mod Topics
pub mod Endpoints
pub mod Cleanup
pub mod Liveness
pub mod Queries
pub mod Invariant
pub mod Sizes
pub mod Unlink
pub mod Settle
pub mod Removal
pub mod Unadvertise
pub mod Unregister
pub mod Link
pub mod Create
pub mod Growth
pub mod Advertise
pub mod Members
pub mod Deaths
pub mod Calls
pub mod Steps
pub mod Runs
pub mod Watch
pub mod Discovery
pub mod Outcomes
pub mod Partings
pub mod Reached
pub mod Tests
use cpp_robot_middleware.Prelude.{
  ℕ, ◌*◌, Bool, true, false, ◌&&◌, ◌||◌, not, List, [], ◌∷◌, Option, none, some, length, leb, ◌==◌,
  ◌!=◌, if◌then◌else◌,
}
use cpp_robot_middleware.ErrorCode.{
  LivenessConfig, drop_newest, block_with_timeout, valid_liveness_config,
}
use cpp_robot_middleware.Wire.{is_valid_shared_memory_name}
use cpp_robot_middleware.Map.{OrderedMap}

-- `TransportType` and `LivenessState`, by their numbers on the wire.
abbrev pub unix_domain_socket : ℕ
unix_domain_socket = 1

abbrev pub shared_memory : ℕ
shared_memory = 2

pub data LivenessState : Type 0 where
  alive suspected dead : LivenessState

abbrev pub is_alive : LivenessState → Bool
is_alive alive = true
is_alive _ = false

pub record NodeRecord : Type 0 where
  pub node_id : ℕ
  pub session_id : ℕ
  pub node_name : List ℕ
  pub control_connection : ℕ
  pub heartbeat_connection : ℕ
  pub liveness : LivenessState
  pub last_seen : ℕ
  pub publisher_endpoints : List ℕ
  pub subscriber_endpoints : List ℕ

pub record SharedPoolMetadata : Type 0 where
  pub shm_name : List ℕ
  pub pool_id : ℕ
  pub segment_size : ℕ
  pub layout_version : ℕ

pub record SharedQueueMetadata : Type 0 where
  pub shm_name : List ℕ
  pub queue_id : ℕ
  pub segment_size : ℕ
  pub capacity : ℕ
  pub layout_version : ℕ
  pub overflow_policy : ℕ
  pub block_timeout_ms : ℕ

abbrev pub no_pool : SharedPoolMetadata
no_pool = record { shm_name = []; pool_id = 0; segment_size = 0; layout_version = 0 }

pub record TopicRecord : Type 0 where
  pub topic_id : ℕ
  pub topic_name : List ℕ
  pub type_name : List ℕ
  pub type_hash : List ℕ
  pub transport : ℕ
  pub max_message_size : ℕ
  pub publisher_endpoint : Option ℕ
  pub subscriber_endpoints : List ℕ
  pub pool : SharedPoolMetadata

pub record PublisherEndpoint : Type 0 where
  pub endpoint_id : ℕ
  pub node_id : ℕ
  pub topic_id : ℕ
  pub max_message_size : ℕ
  pub transport : ℕ
  pub pool : SharedPoolMetadata

pub record SubscriberEndpoint : Type 0 where
  pub endpoint_id : ℕ
  pub node_id : ℕ
  pub topic_id : ℕ
  pub data_socket_path : List ℕ
  pub max_message_size : ℕ
  pub transport : ℕ
  pub queue : SharedQueueMetadata

pub record RegistryMetrics : Type 0 where
  pub heartbeat_received : ℕ
  pub suspected_count : ℕ
  pub dead_node_count : ℕ

-- The two name maps are never iterated.
pub record RegistryState : Type 0 where
  pub next_node_id : ℕ
  pub next_session_id : ℕ
  pub next_topic_id : ℕ
  pub next_endpoint_id : ℕ
  pub nodes : OrderedMap ℕ NodeRecord
  pub node_names : OrderedMap (List ℕ) ℕ
  pub topics : OrderedMap ℕ TopicRecord
  pub topic_names : OrderedMap (List ℕ) ℕ
  pub publishers : OrderedMap ℕ PublisherEndpoint
  pub subscribers : OrderedMap ℕ SubscriberEndpoint
  pub liveness : LivenessConfig
  pub metrics : RegistryMetrics

abbrev pub is_empty : {A : Type 0} → List A → Bool
is_empty [] = true
is_empty (x ∷ xs) = false

abbrev pub is_some : {A : Type 0} → Option A → Bool
is_some none = false
is_some (some a) = true

unfoldable pub valid_transport : ℕ → Bool
valid_transport transport = transport == unix_domain_socket || transport == shared_memory

-- The checks on the name are those of `isValidSharedMemoryName`.
unfoldable pub valid_pool_metadata : ℕ → SharedPoolMetadata → Bool
valid_pool_metadata transport pool =
    if transport == unix_domain_socket
    then is_empty pool.shm_name
      && pool.pool_id == 0
      && pool.segment_size == 0
      && pool.layout_version == 0
    else is_valid_shared_memory_name pool.shm_name
      && pool.pool_id != 0
      && pool.segment_size != 0
      && pool.layout_version == 1

unfoldable pub valid_queue_metadata : ℕ → SharedQueueMetadata → Bool
valid_queue_metadata transport queue =
    if transport == unix_domain_socket
    then is_empty queue.shm_name
      && queue.queue_id == 0
      && queue.segment_size == 0
      && queue.capacity == 0
      && queue.layout_version == 0
      && queue.overflow_policy == 0
      && queue.block_timeout_ms == 0
    else is_valid_shared_memory_name queue.shm_name
      && queue.queue_id != 0
      && queue.segment_size != 0
      && queue.capacity != 0
      && leb queue.capacity 65536
      && queue.layout_version == 3
      && leb drop_newest queue.overflow_policy
      && leb queue.overflow_policy block_with_timeout
      && queue.block_timeout_ms != 0

abbrev pub empty_state : LivenessConfig → RegistryState
empty_state liveness = record {
  next_node_id = 1;
  next_session_id = 1;
  next_topic_id = 1;
  next_endpoint_id = 1;
  nodes = [];
  node_names = [];
  topics = [];
  topic_names = [];
  publishers = [];
  subscribers = [];
  liveness = liveness;
  metrics = record { heartbeat_received = 0; suspected_count = 0; dead_node_count = 0 };
}

-- The constructor; `none` is `std::invalid_argument`.
unfoldable pub new_registry : LivenessConfig → Option RegistryState
unfolding valid_liveness_config
new_registry liveness =
    if not (valid_liveness_config liveness) then none else some (empty_state liveness)

-- `std::chrono::milliseconds` against the clock's nanoseconds.
abbrev pub milliseconds : ℕ → ℕ
milliseconds n = n * 1000000
