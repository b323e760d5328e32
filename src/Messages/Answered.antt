-- ===== src/Messages/Answered.antt =====
-- The bodies of the answers: what the server's writer makes of them, and what the client's reader
-- finds in it. The frames around them are in Delivery.
use cpp_robot_middleware.Prelude.{
  ℕ, ◌<◌, ◌%◌, ◌^◌, ◌≡◌, ◌≢◌, refl, ◌∙◌, ap, sym, false, List, [], ◌∷◌, ◌++◌, map, some, append-nil,
  append_assoc, length, arith,
}
use cpp_robot_middleware.QueueProtocol.{QueueDescriptor}
use cpp_robot_middleware.Registry.{SharedQueueMetadata, is_empty}
use cpp_robot_middleware.Registry.Nodes.{IdResult}
use cpp_robot_middleware.Registry.Endpoints.{EndpointResult}
use cpp_robot_middleware.Registry.Queries.{DiscoveredSubscriber, DiscoveryResult}
use cpp_robot_middleware.Messages.{Item, read_items, write_items}
use cpp_robot_middleware.Messages.Answers.{
  each, read_each, registration_items, of_registration, read_registration, endpoint_body, pool_of,
  of_endpoint, read_endpoint, subscriber_items, discovery_head, discovery_body, RegistrySubscriber,
  RegistryDiscovery, of_subscriber, subscriber_kinds, of_discovery, discovery_kinds, read_discovery,
}
use cpp_robot_middleware.Messages.RoundTrip.{
  AllFit, flat, bytes_of, kinds_of, write_items-flat, read_items-flat,
}
use cpp_robot_middleware.Messages.Requested.{read_all-flat}

pub flat-append : (a b : List Item) → flat (a ++ b) ≡ flat a ++ flat b
flat-append [] b = refl
flat-append (i ∷ a) b =
    ap (λ l. bytes_of i ++ l) (flat-append a b) ∙ sym (append_assoc (bytes_of i) (flat a) (flat b))

AllFit-append : (a b : List Item) → AllFit (a ++ b) → AllFit a × AllFit b
AllFit-append [] b fit = (tt, fit)
AllFit-append (i ∷ a) b (here, rest) = (let (x, y) = AllFit-append a b rest in ((here, x), y))

-- A queue as the client keeps it.
abbrev pub queue_of : SharedQueueMetadata → QueueDescriptor
queue_of q = record {
  shm_name = q.shm_name;
  queue_id = q.queue_id;
  segment_size = q.segment_size;
  capacity = q.capacity;
  layout_version = q.layout_version;
  overflow_policy = q.overflow_policy;
  block_timeout_ms = q.block_timeout_ms;
}

abbrev pub received : DiscoveredSubscriber → RegistrySubscriber
received r = record {
  endpoint_id = r.endpoint_id;
  data_socket_path = r.data_socket_path;
  max_message_size = r.max_message_size;
  queue = queue_of r.queue;
}

read_each-flat :
    (xs : List DiscoveredSubscriber) (rest : List ℕ)
    → AllFit (each subscriber_items xs)
    → read_each (length xs) subscriber_kinds of_subscriber (flat (each subscriber_items xs) ++ rest)
      ≡ some (map received xs, rest)
unfolding read_each each subscriber_items of_subscriber
read_each-flat [] rest fit = refl
read_each-flat (x ∷ xs) rest fit =
    let (here, more) = AllFit-append (subscriber_items x) (each subscriber_items xs) fit in
    let split =
      ap (λ (l : List ℕ). l ++ rest) (flat-append (subscriber_items x) (each subscriber_items xs))
      ∙ append_assoc (flat (subscriber_items x)) (flat (each subscriber_items xs)) rest in
    rw
      (
        split,
        read_items-flat (subscriber_items x) (flat (each subscriber_items xs) ++ rest) here,
        read_each-flat xs rest more,
      )
      refl

discovery_steps :
    (buf rest : List ℕ) (items : List Item) (head : RegistryDiscovery) (count : ℕ)
    (found : List RegistrySubscriber)
    → read_items discovery_kinds buf ≡ some (items, rest)
    → of_discovery items ≡ some (head, count)
    → read_each count subscriber_kinds of_subscriber rest ≡ some (found, [])
    → is_empty found ≡ false
    → read_discovery buf ≡ some (record head { subscribers = found })
unfolding read_discovery
discovery_steps buf rest items head count found reads heads tails heard =
    rw (reads, heads, tails, heard) refl

is_empty-map : (xs : List DiscoveredSubscriber) → is_empty (map received xs) ≡ is_empty xs
is_empty-map [] = refl
is_empty-map (x ∷ xs) = refl

module _ (d : DiscoveryResult) where
  abbrev answer_head : RegistryDiscovery
  answer_head = record {
    topic_id = d.topic_id;
    transport = d.transport;
    pool = pool_of d.topic_id d.pool;
    subscribers = [];
  }

  head_kinds : kinds_of (discovery_head d) ≡ discovery_kinds
  unfolding discovery_head
  head_kinds = refl

  heads : of_discovery (discovery_head d) ≡ some (answer_head, length d.subscribers % 2 ^ 32)
  unfolding discovery_head of_discovery
  heads = refl

-- The answer to ResolveEndpoint with at least one and fewer than 2^32 subscribers, whose integers fit
-- their fields and whose strings are below 2^32 bytes, is written as a body from which the client reads the topic, the transport, the
-- pool and all subscribers in their order.
pub read_discovery-write :
    (d : DiscoveryResult)
    → AllFit (discovery_body d)
    → length d.subscribers < 2 ^ 32
    → is_empty d.subscribers ≡ false
    → (buf : List ℕ) × (write_items (discovery_body d) [] ≡ some buf)
      × (read_discovery buf
          ≡ some (record {
            topic_id = d.topic_id;
            transport = d.transport;
            pool = pool_of d.topic_id d.pool;
            subscribers = map received d.subscribers;
          }))
unfolding discovery_body
read_discovery-write d fit few heard =
    let (head, more) = AllFit-append (discovery_head d) (each subscriber_items d.subscribers) fit in
    let split = flat-append (discovery_head d) (each subscriber_items d.subscribers) in
    let reads : read_items discovery_kinds
          (flat (discovery_head d) ++ flat (each subscriber_items d.subscribers))
        ≡ some (discovery_head d, flat (each subscriber_items d.subscribers)) =
      rw (head_kinds d) at
        (read_items-flat (discovery_head d) (flat (each subscriber_items d.subscribers)) head) in
    let count : length d.subscribers % 2 ^ 32 ≡ length d.subscribers = omega arith in
    let tails =
      rw (append-nil (flat (each subscriber_items d.subscribers))) at
        (read_each-flat d.subscribers [] more) in
    (
      flat (discovery_body d),
      write_items-flat (discovery_body d) [] fit,
      ap read_discovery split
          ∙ discovery_steps (flat (discovery_head d) ++ flat (each subscriber_items d.subscribers))
              (flat (each subscriber_items d.subscribers)) (discovery_head d) (answer_head d)
              (length d.subscribers) (map received d.subscribers) reads
              (heads d ∙ ap (λ (n : ℕ). some (answer_head d, n)) count) tails
              (is_empty-map d.subscribers ∙ heard),
    )

-- The answer to AdvertiseTopic and SubscribeTopic, whose integers fit their fields and whose
-- string is below 2^32 bytes, is written as a body from which the client reads the topic, the endpoint and the pool.
pub read_endpoint-write :
    (r : EndpointResult)
    → AllFit (endpoint_body r)
    → (buf : List ℕ) × (write_items (endpoint_body r) [] ≡ some buf)
      × (read_endpoint buf
          ≡ some (record {
            topic_id = r.topic_id;
            endpoint_id = r.endpoint_id;
            pool = pool_of r.topic_id r.pool;
          }))
unfolding endpoint_body read_endpoint
read_endpoint-write r fit = (
  flat (endpoint_body r),
  write_items-flat (endpoint_body r) [] fit,
  read_all-flat (endpoint_body r) of_endpoint fit refl,
)

-- The answer to RegisterNode is written as a body from which the client reads both numbers, if these
-- fit and are not 0.
pub read_registration-write :
    (r : IdResult)
    → AllFit (registration_items r)
    → r.id ≢ 0
    → r.session_id ≢ 0
    → (buf : List ℕ) × (write_items (registration_items r) [] ≡ some buf)
      × (read_registration buf ≡ some (record { node_id = r.id; session_id = r.session_id }))
unfolding registration_items read_registration
read_registration-write r fit given given' = (
  flat (registration_items r),
  write_items-flat (registration_items r) [] fit,
  read_all-flat (registration_items r) of_registration fit (ground arith),
)
