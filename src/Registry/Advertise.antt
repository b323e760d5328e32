-- ===== src/Registry/Advertise.antt =====
-- What `advertise` and `subscribe` do.
use cpp_robot_middleware.Prelude.{
  ℕ, ◌+◌, ◌≡◌, ◌≤◌, refl, Bool, true, false, not, ◌&&◌, ◌||◌, List, [], ◌∷◌, Option, none, some,
  arith, ltb, min, ◌==◌, Bool-cases, Option-cases, inl, inr, u64_max,
}
use cpp_robot_middleware.ErrorCode.{ErrorCode, ok, invalid_argument, not_registered}
use cpp_robot_middleware.Map.{
  insert-IsSorted, lookup, insert, lookup-insert, include, id_key, name_key,
}
use cpp_robot_middleware.Registry.{
  RegistryState, NodeRecord, TopicRecord, SharedPoolMetadata, SharedQueueMetadata, is_empty,
  is_some, valid_pool_metadata, valid_queue_metadata,
}
use cpp_robot_middleware.Registry.Nodes.{owned_node}
use cpp_robot_middleware.Registry.Endpoints.{
  TopicRequest, refused, valid_request, topic_conflict, conflict, link_publisher, link_subscriber,
  advertise, subscribe,
}
use cpp_robot_middleware.Registry.Invariant.{holds, IsLinked, in_use, IsOccupied, IsValid, Within}
use cpp_robot_middleware.Registry.Link.{link_publisher-IsLinked, link_subscriber-IsLinked}
use cpp_robot_middleware.Registry.Create.{Found, find_for-Found, topic_names-topic}
use cpp_robot_middleware.Registry.Growth.{link_publisher-IsSized, link_subscriber-IsSized}
use cpp_robot_middleware.Registry.Unadvertise.{owned_node-some}

conflict-total :
    (s : RegistryState) (exclusive : Bool) (r : TopicRequest)
    → IsLinked s
    → (c : Option (ErrorCode × ℕ)) × (conflict s exclusive r ≡ some c)
unfolding conflict
conflict-total s exclusive r v = elim (Option-cases (lookup r.topic_name s.topic_names)) [
  | inl fresh ↦ (none, rw (fresh, conflict) refl)
  | inr (t, found) ↦
      (let (topic, on, own) = topic_names-topic s v r.topic_name t found in
        (
          elim (topic_conflict exclusive r topic) [
            | none ↦ none
            | some e ↦ some (e, topic.topic_id)
          ],
          rw (found, conflict, on) refl,
        ))
]

-- Without a conflict the topic has no publisher.
conflict-free :
    (s : RegistryState) (r : TopicRequest) (s' : RegistryState) (topic : TopicRecord)
    → Found s r s' topic
    → conflict s true r ≡ some none
    → topic.publisher_endpoint ≡ none
unfolding conflict
conflict-free s r s' topic f h = elim f.origin [
  | inl (found, on) ↦ ground arith
  | inr (fresh, new, absent) ↦ ground arith
]

-- A topic that gets an endpoint is in use, and the others are as they were.
occupied-insert :
    (s s' : RegistryState) (r : TopicRequest) (topic topic' : TopicRecord)
    → IsOccupied s
    → Found s r s' topic
    → in_use topic' ≡ true
    → (t : ℕ)
    → holds (lookup t (insert topic.topic_id topic' s'.topics)) in_use
      ≡ is_some (lookup t (insert topic.topic_id topic' s'.topics))
occupied-insert s s' r topic topic' occupied f used t =
    rw (lookup-insert topic.topic_id topic' s'.topics t) (elim (Bool-cases (t == topic.topic_id)) [
      | inl same ↦ rw same used
      | inr apart ↦ rw (apart, f.others t apart) (occupied t)
    ])

include-used : (e : ℕ) (s : List ℕ) → is_empty (include e s) ≡ false
include-used e [] = refl
include-used e (x ∷ s) = ground arith

joined-used :
    (publisher : Option ℕ) (e : ℕ) (s : List ℕ)
    → (is_some publisher || not (is_empty (include e s))) ≡ true
joined-used none e s = rw (include-used e s) refl
joined-used (some p) e s = refl

and_true : (a b : Bool) → (a && b) ≡ true → a ≡ true
and_true a b h = ground arith

request_bound :
    (r : TopicRequest) (rest : Bool)
    → (valid_request r && rest) ≡ true
    → r.max_message_size ≤ u64_max
request_bound r rest h = ground arith

module _ (n : ℕ) (s : RegistryState) (v : IsValid s) (w : Within n s)
    (room : ltb n u64_max ≡ true) where
  pub Within-suc : Within (n + 1) s
  Within-suc = record {
    node_room = ground (arith, w.node_room);
    topic_room = ground (arith, w.topic_room);
    endpoint_room = ground (arith, w.endpoint_room);
  }

  -- The outcome of a call: the state that it leaves is valid, and gives out at most one number more.
  abbrev pub Kept : {A : Type 0} → Option (RegistryState × A) → Type 0
  Kept {A} out =
      (s' : RegistryState) × (a : A) × (out ≡ some (s', a)) × IsValid s' × Within (n + 1) s'

  pub unchanged : {A : Type 0} (a : A) → Kept (some (s, a))
  unchanged a = (s, a, refl, v, Within-suc)

  topic_free : ltb s.next_topic_id u64_max ≡ true
  topic_free = ground (arith, w.topic_room)

  endpoint_free : ltb s.next_endpoint_id u64_max ≡ true
  endpoint_free = ground (arith, w.endpoint_room)

  advertised :
      (connection i : ℕ) (r : TopicRequest) (pool : SharedPoolMetadata) (node : NodeRecord)
      → owned_node s connection i ≡ some node
      → (valid_request r && valid_pool_metadata r.transport pool) ≡ true
      → conflict s true r ≡ some none
      → Kept (advertise s connection i r pool)
  unfolding advertise
  advertised connection i r pool node owned request free =
      let (s', topic, finds, f) = find_for-Found s v.linked r topic_free in
      let there = (owned_node-some s connection i owned).0 in
      (
        link_publisher s' i node topic r pool,
        record {
          error = ok;
          topic_id = topic.topic_id;
          endpoint_id = s'.next_endpoint_id;
          pool = pool;
        },
        ground arith,
        record {
          linked =
              link_publisher-IsLinked s' f.linked i node topic r pool (rw f.kept_nodes there) f.on
                (conflict-free s r s' topic f free) (rw f.kept_next_endpoint endpoint_free);
          occupied =
              occupied-insert s s' r topic
                (record topic {
                  publisher_endpoint = some s'.next_endpoint_id;
                  pool = pool;
                  max_message_size = min topic.max_message_size r.max_message_size;
                })
                v.occupied f refl;
          ordered =
              insert-IsSorted i
                (record node {
                  publisher_endpoints = include s'.next_endpoint_id node.publisher_endpoints;
                })
                s'.nodes (rw f.kept_nodes v.ordered);
          sized =
              link_publisher-IsSized s v r s' topic f
                (request_bound r (valid_pool_metadata r.transport pool) request) i node pool
                (conflict-free s r s' topic f free);
        },
        record {
          node_room = rw f.kept_next_node (ground (arith, w.node_room));
          topic_room = f.next_topic n w.topic_room;
          endpoint_room = rw f.kept_next_endpoint (ground (arith, w.endpoint_room));
        },
      )

  advertise_checked :
      (connection i : ℕ) (r : TopicRequest) (pool : SharedPoolMetadata) (node : NodeRecord)
      → owned_node s connection i ≡ some node
      → (valid_request r && valid_pool_metadata r.transport pool) ≡ true
      → (c : Option (ErrorCode × ℕ)) × (conflict s true r ≡ some c)
      → Kept (advertise s connection i r pool)
  unfolding advertise
  advertise_checked connection i r pool node owned request (none, free) =
      advertised connection i r pool node owned request free
  advertise_checked connection i r pool node owned request (some (e, t), clash) =
      rw (owned, advertise, request, clash) (unchanged (refused e t))

  pub advertise_total :
      (connection i : ℕ) (r : TopicRequest) (pool : SharedPoolMetadata)
      → Kept (advertise s connection i r pool)
  unfolding advertise
  advertise_total connection i r pool = elim (Option-cases (owned_node s connection i)) [
    | inl stranger ↦ rw (stranger, advertise) (unchanged (refused not_registered 0))
    | inr (node, owned) ↦
        elim (Bool-cases (valid_request r && valid_pool_metadata r.transport pool)) [
          | inl request ↦
              advertise_checked connection i r pool node owned request
                (conflict-total s true r v.linked)
          | inr bad ↦ rw (owned, advertise, bad) (unchanged (refused invalid_argument 0))
        ]
  ]

  subscribed :
      (connection i : ℕ) (r : TopicRequest) (path : List ℕ) (queue : SharedQueueMetadata)
      (node : NodeRecord)
      → owned_node s connection i ≡ some node
      → (valid_request r && not (is_empty path) && valid_queue_metadata r.transport queue) ≡ true
      → conflict s false r ≡ some none
      → Kept (subscribe s connection i r path queue)
  unfolding subscribe
  subscribed connection i r path queue node owned request free =
      let (s', topic, finds, f) = find_for-Found s v.linked r topic_free in
      let there = (owned_node-some s connection i owned).0 in
      (
        link_subscriber s' i node topic r path queue,
        record {
          error = ok;
          topic_id = topic.topic_id;
          endpoint_id = s'.next_endpoint_id;
          pool = topic.pool;
        },
        ground arith,
        record {
          linked =
              link_subscriber-IsLinked s' f.linked i node topic r path queue (rw f.kept_nodes there)
                f.on (rw f.kept_next_endpoint endpoint_free);
          occupied =
              occupied-insert s s' r topic
                (record topic {
                  subscriber_endpoints = include s'.next_endpoint_id topic.subscriber_endpoints;
                  max_message_size = min topic.max_message_size r.max_message_size;
                })
                v.occupied f
                (joined-used topic.publisher_endpoint s'.next_endpoint_id
                  topic.subscriber_endpoints);
          ordered =
              insert-IsSorted i
                (record node {
                  subscriber_endpoints = include s'.next_endpoint_id node.subscriber_endpoints;
                })
                s'.nodes (rw f.kept_nodes v.ordered);
          sized =
              link_subscriber-IsSized s v r s' topic f
                (request_bound r (not (is_empty path)) (
                  and_true (valid_request r && not (is_empty path))
                    (valid_queue_metadata r.transport queue) request))
                i node path queue;
        },
        record {
          node_room = rw f.kept_next_node (ground (arith, w.node_room));
          topic_room = f.next_topic n w.topic_room;
          endpoint_room = rw f.kept_next_endpoint (ground (arith, w.endpoint_room));
        },
      )

  subscribe_checked :
      (connection i : ℕ) (r : TopicRequest) (path : List ℕ) (queue : SharedQueueMetadata)
      (node : NodeRecord)
      → owned_node s connection i ≡ some node
      → (valid_request r && not (is_empty path) && valid_queue_metadata r.transport queue) ≡ true
      → (c : Option (ErrorCode × ℕ)) × (conflict s false r ≡ some c)
      → Kept (subscribe s connection i r path queue)
  unfolding subscribe
  subscribe_checked connection i r path queue node owned request (none, free) =
      subscribed connection i r path queue node owned request free
  subscribe_checked connection i r path queue node owned request (some (e, t), clash) =
      rw (owned, subscribe, request, clash) (unchanged (refused e t))

  pub subscribe_total :
      (connection i : ℕ) (r : TopicRequest) (path : List ℕ) (queue : SharedQueueMetadata)
      → Kept (subscribe s connection i r path queue)
  unfolding subscribe
  subscribe_total connection i r path queue = elim (Option-cases (owned_node s connection i)) [
    | inl stranger ↦ rw (stranger, subscribe) (unchanged (refused not_registered 0))
    | inr (node, owned) ↦
        elim (Bool-cases
          (valid_request r && not (is_empty path) && valid_queue_metadata r.transport queue)) [
            | inl request ↦
                subscribe_checked connection i r path queue node owned request
                  (conflict-total s false r v.linked)
            | inr bad ↦ rw (owned, subscribe, bad) (unchanged (refused invalid_argument 0))
          ]
  ]
