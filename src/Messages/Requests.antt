-- ===== src/Messages/Requests.antt =====
-- The requests: what the client writes, and what the dispatch of the server reads.
use cpp_robot_middleware.Prelude.{
  ℕ, List, [], ◌∷◌, Option, none, some, and_then, ◌==◌, if◌then◌else◌,
}
use cpp_robot_middleware.Registry.{SharedPoolMetadata, SharedQueueMetadata, is_empty}
use cpp_robot_middleware.Registry.Endpoints.{TopicRequest}
use cpp_robot_middleware.Messages.{
  Item, integer, text, Kind, string, u16, u32, u64, write_items, read_items,
}

pub data Request : Type 0 where
  register_node : List ℕ → Request
  unregister_node : ℕ → Request
  advertise_topic : ℕ → TopicRequest → SharedPoolMetadata → Request
  unadvertise_topic : ℕ → ℕ → Request
  subscribe_topic : ℕ → TopicRequest → List ℕ → SharedQueueMetadata → Request
  unsubscribe_topic : ℕ → ℕ → Request
  resolve_endpoint : ℕ → ℕ → Request
  list_nodes : Request
  list_topics : Request
  query_topic : List ℕ → Request
  attach_heartbeat : ℕ → ℕ → Request
  heartbeat : ℕ → ℕ → Request
  query_stats : Request

-- `enum class Opcode`
unfoldable pub opcode_of : Request → ℕ
opcode_of (register_node name) = 1
opcode_of (unregister_node node) = 2
opcode_of (advertise_topic node r pool) = 3
opcode_of (unadvertise_topic node endpoint) = 4
opcode_of (subscribe_topic node r path queue) = 5
opcode_of (unsubscribe_topic node endpoint) = 6
opcode_of (resolve_endpoint node endpoint) = 7
opcode_of list_nodes = 8
opcode_of list_topics = 9
opcode_of (query_topic name) = 10
opcode_of (attach_heartbeat node session) = 11
opcode_of (heartbeat node session) = 12
opcode_of query_stats = 13

abbrev pub two_ids : ℕ → ℕ → List Item
two_ids a b = integer 8 a ∷ integer 8 b ∷ []

-- The writer calls of the client.
unfoldable pub request_items : Request → List Item
request_items (register_node name) = text name ∷ []
request_items (unregister_node node) = integer 8 node ∷ []
request_items (advertise_topic node r pool) =
    integer 8 node
    ∷ text r.topic_name
    ∷ text r.type_name
    ∷ text r.type_hash
    ∷ integer 8 r.max_message_size
    ∷ integer 2 r.transport
    ∷ text pool.shm_name
    ∷ integer 8 pool.pool_id
    ∷ integer 8 pool.segment_size
    ∷ integer 2 pool.layout_version
    ∷ []
request_items (unadvertise_topic node endpoint) = two_ids node endpoint
request_items (subscribe_topic node r path queue) =
    integer 8 node
    ∷ text r.topic_name
    ∷ text r.type_name
    ∷ text r.type_hash
    ∷ integer 8 r.max_message_size
    ∷ text path
    ∷ integer 2 r.transport
    ∷ text queue.shm_name
    ∷ integer 8 queue.queue_id
    ∷ integer 8 queue.segment_size
    ∷ integer 4 queue.capacity
    ∷ integer 2 queue.layout_version
    ∷ integer 2 queue.overflow_policy
    ∷ integer 8 queue.block_timeout_ms
    ∷ []
request_items (unsubscribe_topic node endpoint) = two_ids node endpoint
request_items (resolve_endpoint node endpoint) = two_ids node endpoint
request_items list_nodes = []
request_items list_topics = []
request_items (query_topic name) = text name ∷ []
request_items (attach_heartbeat node session) = two_ids node session
request_items (heartbeat node session) = two_ids node session
request_items query_stats = []

unfoldable pub write_request : Request → Option (List ℕ)
write_request q = write_items (request_items q) []

-- A handler's reads, all of which must succeed and leave nothing.
abbrev pub read_all : {A : Type 0} → List Kind → (List Item → Option A) → List ℕ → Option A
read_all kinds build buf =
    and_then (read_items kinds buf) (λ (items, rest). if is_empty rest then build items else none)

abbrev pub of_text : (List ℕ → Request) → List Item → Option Request
of_text make (text name ∷ []) = some (make name)
of_text make _ = none

abbrev pub of_id : (ℕ → Request) → List Item → Option Request
of_id make (integer width a ∷ []) = some (make a)
of_id make _ = none

abbrev pub of_ids : (ℕ → ℕ → Request) → List Item → Option Request
of_ids make (integer width a ∷ integer width' b ∷ []) = some (make a b)
of_ids make _ = none

abbrev pub of_nothing : Request → List Item → Option Request
of_nothing q [] = some q
of_nothing q _ = none

unfoldable pub of_advertise : List Item → Option Request
of_advertise
      (integer a node
        ∷ text topic
        ∷ text type
        ∷ text hash
        ∷ integer b size
        ∷ integer c transport
        ∷ text shm
        ∷ integer d id
        ∷ integer e segment
        ∷ integer f layout
        ∷ []) =
    some (
      advertise_topic node
        (record {
          topic_name = topic;
          type_name = type;
          type_hash = hash;
          max_message_size = size;
          transport = transport;
        })
        (record { shm_name = shm; pool_id = id; segment_size = segment; layout_version = layout }))
of_advertise _ = none

unfoldable pub of_subscribe : List Item → Option Request
of_subscribe
      (integer a node
        ∷ text topic
        ∷ text type
        ∷ text hash
        ∷ integer b size
        ∷ text path
        ∷ integer c transport
        ∷ text shm
        ∷ integer d id
        ∷ integer e segment
        ∷ integer f capacity
        ∷ integer g layout
        ∷ integer h policy
        ∷ integer k timeout
        ∷ []) =
    some (
      subscribe_topic node
        (record {
          topic_name = topic;
          type_name = type;
          type_hash = hash;
          max_message_size = size;
          transport = transport;
        })
        path
        (record {
          shm_name = shm;
          queue_id = id;
          segment_size = segment;
          capacity = capacity;
          layout_version = layout;
          overflow_policy = policy;
          block_timeout_ms = timeout;
        }))
of_subscribe _ = none

-- The switch of `dispatch`; `none` is the answer INVALID_CONTROL_MESSAGE, or UNKNOWN_OPCODE where
-- the opcode is not a request's.
unfoldable pub read_request : ℕ → List ℕ → Option Request
unfolding of_advertise of_subscribe
read_request opcode buf =
    if opcode == 1
    then read_all (string ∷ []) (of_text register_node) buf
    else if opcode == 2
    then read_all (u64 ∷ []) (of_id unregister_node) buf
    else if opcode == 3
    then read_all (u64 ∷ string ∷ string ∷ string ∷ u64 ∷ u16 ∷ string ∷ u64 ∷ u64 ∷ u16 ∷ [])
        of_advertise buf
    else if opcode == 4
    then read_all (u64 ∷ u64 ∷ []) (of_ids unadvertise_topic) buf
    else if opcode == 5
    then read_all
        (u64 ∷ string ∷ string ∷ string ∷ u64 ∷ string ∷ u16 ∷ string ∷ u64 ∷ u64 ∷ u32 ∷ u16 ∷ u16
          ∷ u64 ∷ [])
        of_subscribe buf
    else if opcode == 6
    then read_all (u64 ∷ u64 ∷ []) (of_ids unsubscribe_topic) buf
    else if opcode == 7
    then read_all (u64 ∷ u64 ∷ []) (of_ids resolve_endpoint) buf
    else if opcode == 8
    then read_all [] (of_nothing list_nodes) buf
    else if opcode == 9
    then read_all [] (of_nothing list_topics) buf
    else if opcode == 10
    then read_all (string ∷ []) (of_text query_topic) buf
    else if opcode == 11
    then read_all (u64 ∷ u64 ∷ []) (of_ids attach_heartbeat) buf
    else if opcode == 12
    then read_all (u64 ∷ u64 ∷ []) (of_ids heartbeat) buf
    else if opcode == 13
    then read_all [] (of_nothing query_stats) buf
    else none
