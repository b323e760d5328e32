-- ===== src/Registry/Outcomes.antt =====
-- When a registration of an endpoint succeeds, and what it enters.
use cpp_robot_middleware.Prelude.{
  ℕ, ◌≡◌, refl, sym, ap, ◌∙◌, Bool, true, false, not, ◌&&◌, ◌||◌, List, Option, none, some, arith,
  ltb, ◌==◌, ◌!=◌, if◌then◌else◌, Bool-cases, Option-cases, inl, inr, bytes_eq, bytes_eq_refl,
  u64_max,
}
use cpp_robot_middleware.ErrorCode.{
  ErrorCode, ok, type_mismatch, transport_mismatch, duplicate_publisher,
}
use cpp_robot_middleware.Map.{lookup, lookup-emplace, id_key, name_key}
use cpp_robot_middleware.Registry.{
  RegistryState, NodeRecord, TopicRecord, PublisherEndpoint, SubscriberEndpoint, SharedPoolMetadata,
  SharedQueueMetadata, is_empty, is_some, valid_pool_metadata, valid_queue_metadata,
}
use cpp_robot_middleware.Registry.Nodes.{owned_node}
use cpp_robot_middleware.Registry.Endpoints.{
  TopicRequest, EndpointResult, refused, valid_request, topic_conflict, conflict, link_publisher,
  link_subscriber, advertise, subscribe,
}
use cpp_robot_middleware.Registry.Queries.{query_topic}
use cpp_robot_middleware.Registry.Invariant.{IsLinked, IsValid}
use cpp_robot_middleware.Registry.Link.{next_publisher-fresh, next_subscriber-fresh}
use cpp_robot_middleware.Registry.Create.{Found, find_for-Found}

abbrev pub is_ok : ErrorCode → Bool
is_ok ok = true
is_ok _ = false

-- The topic that there is, if any, is what the request asks for; `exclusive` when the request is
-- a publisher's, and then the topic must have none.
abbrev pub fits : Bool → TopicRequest → Option TopicRecord → Bool
fits exclusive r none = true
fits exclusive r (some topic) =
    bytes_eq topic.type_name r.type_name
    && bytes_eq topic.type_hash r.type_hash
    && topic.transport == r.transport
    && not (exclusive && is_some topic.publisher_endpoint)

-- The error for a topic that does not fit.
abbrev pub clash_of : Bool → TopicRequest → Option TopicRecord → Option (ErrorCode × ℕ)
clash_of exclusive r none = none
clash_of exclusive r (some topic) = elim (topic_conflict exclusive r topic) [
  | none ↦ none
  | some e ↦ some (e, topic.topic_id)
]

clash-fits :
    (exclusive : Bool) (r : TopicRequest) (o : Option TopicRecord)
    → fits exclusive r o ≡ true
    → clash_of exclusive r o ≡ none
clash-fits exclusive r none h = refl
clash-fits exclusive r (some topic) h = ground arith

-- The first difference gives the error.
first_difference :
    (types hashes taken : Bool) (a b : ℕ)
    → (types && hashes && a == b && not taken) ≡ false
    → (e : ErrorCode) × ((if not types || not hashes
          then some type_mismatch
          else if a != b
          then some transport_mismatch
          else if taken
          then some duplicate_publisher
          else none)
        ≡ some e)
      × (is_ok e ≡ false)
first_difference false hashes taken a b h = (type_mismatch, refl, refl)
first_difference true false taken a b h = (type_mismatch, refl, refl)
first_difference true true false a b h = (transport_mismatch, ground arith, refl)
first_difference true true true a b h = elim (Bool-cases (a == b)) [
  | inl same ↦ (duplicate_publisher, ground arith, refl)
  | inr other ↦ (transport_mismatch, ground arith, refl)
]

clash-misfits :
    (exclusive : Bool) (r : TopicRequest) (o : Option TopicRecord)
    → fits exclusive r o ≡ false
    → (e : ErrorCode) × (t : ℕ) × (clash_of exclusive r o ≡ some (e, t)) × (is_ok e ≡ false)
clash-misfits exclusive r none h = cc
clash-misfits exclusive r (some topic) h =
    let (e, clash, bad) =
      first_difference (bytes_eq topic.type_name r.type_name) (bytes_eq topic.type_hash r.type_hash)
        (exclusive && is_some topic.publisher_endpoint) topic.transport r.transport h in
    (e, topic.topic_id, rw (clash, clash_of) refl, bad)

conflict_steps :
    (s : RegistryState) (exclusive : Bool) (r : TopicRequest) (o : Option TopicRecord)
    → query_topic s r.topic_name ≡ some o
    → conflict s exclusive r ≡ some (clash_of exclusive r o)
unfolding query_topic conflict
conflict_steps s exclusive r none asks = elim (Option-cases (lookup r.topic_name s.topic_names)) [
  | inl absent ↦ rw (absent, conflict) refl
  | inr (t, found) ↦ elim (Option-cases (lookup t s.topics)) [
    | inl gone ↦ absurd (ground arith)
    | inr (topic, on) ↦ absurd (ground arith)
  ]
]
conflict_steps s exclusive r (some topic) asks =
    elim (Option-cases (lookup r.topic_name s.topic_names)) [
      | inl absent ↦ absurd (ground arith)
      | inr (t, found) ↦ elim (Option-cases (lookup t s.topics)) [
        | inl gone ↦ absurd (ground arith)
        | inr (there, on) ↦
            (let same : there ≡ topic = ground arith in
              rw (found, conflict, on ∙ ap some same) refl)
      ]
    ]

-- The topic that `findOrCreateTopic` gives has the requested name.
Found-named :
    (s : RegistryState) (v : IsLinked s) (r : TopicRequest) (s' : RegistryState)
    (topic : TopicRecord)
    → Found s r s' topic
    → lookup r.topic_name s'.topic_names ≡ some topic.topic_id
Found-named s v r s' topic f =
    let titled : bytes_eq r.topic_name topic.topic_name ≡ true = elim f.origin [
      | inl (found, on) ↦ ground (arith, v.topics_named topic.topic_id r.topic_name)
      | inr (fresh, new, absent) ↦ rw new (bytes_eq_refl r.topic_name)
    ] in
    (let on = f.on in ground (arith, f.linked.topics_named topic.topic_id r.topic_name))

-- The publisher that a request enters.
abbrev pub publisher_of :
    RegistryState → ℕ → TopicRequest → SharedPoolMetadata → ℕ → PublisherEndpoint
publisher_of s i r pool t = record {
  endpoint_id = s.next_endpoint_id;
  node_id = i;
  topic_id = t;
  max_message_size = r.max_message_size;
  transport = r.transport;
  pool = pool;
}

abbrev pub subscriber_of :
    RegistryState → ℕ → TopicRequest → List ℕ → SharedQueueMetadata → ℕ → SubscriberEndpoint
subscriber_of s i r path queue t = record {
  endpoint_id = s.next_endpoint_id;
  node_id = i;
  topic_id = t;
  data_socket_path = path;
  max_message_size = r.max_message_size;
  transport = r.transport;
  queue = queue;
}

module _ (s : RegistryState) (connection i : ℕ) (r : TopicRequest) (node : NodeRecord)
    (o : Option TopicRecord) (v : IsValid s) (owned : owned_node s connection i ≡ some node)
    (asks : query_topic s r.topic_name ≡ some o) (room : ltb s.next_topic_id u64_max ≡ true) where
  -- On a valid state whose next topic number is below 2^64 - 1, a well-formed request of
  -- `advertise`, for a node of the connection, succeeds
  -- exactly if there is no topic of the name, or one with the same type name, type hash and transport
  -- and without a publisher. Then the publisher is entered under the next number, on the topic that the name
  -- now leads to; else no publisher changes and the name leads
  -- where it led. Subscribers stay as they are.
  pub advertise_lem :
      (pool : SharedPoolMetadata)
      → (valid_request r && valid_pool_metadata r.transport pool) ≡ true
      → (s' : RegistryState) × (res : EndpointResult) × (advertise s connection i r pool
          ≡ some (s', res))
        × (is_ok res.error ≡ fits true r o)
        × ((x : ℕ)
            → lookup x s'.publishers ≡ (
                if fits true r o && x == s.next_endpoint_id
                then some (publisher_of s i r pool res.topic_id)
                else lookup x s.publishers))
        × (lookup r.topic_name s'.topic_names
            ≡ (if fits true r o then some res.topic_id else lookup r.topic_name s.topic_names))
        × (s'.subscribers ≡ s.subscribers)
  unfolding advertise
  advertise_lem pool request =
      let clash = conflict_steps s true r o asks in
      elim (Bool-cases (fits true r o)) [
        | inl good ↦
            (let (s', topic, finds, f) = find_for-Found s v.linked r room in
              let free = clash-fits true r o good in
              (
                link_publisher s' i node topic r pool,
                record {
                  error = ok;
                  topic_id = topic.topic_id;
                  endpoint_id = s'.next_endpoint_id;
                  pool = pool;
                },
                ground arith,
                sym good,
                λ x.
                    rw (good, f.kept_next_endpoint, f.kept_publishers)
                      (lookup-emplace s.next_endpoint_id (publisher_of s i r pool topic.topic_id)
                        s.publishers x (next_publisher-fresh s v.linked)),
                rw good (Found-named s v.linked r s' topic f),
                f.kept_subscribers,
              ))
        | inr bad ↦
            (let (e, t, label, not_ok) = clash-misfits true r o bad in
              (s, refused e t, ground arith, not_ok ∙ sym bad, λ x. rw bad refl, rw bad refl, refl))
      ]

  -- On a valid state whose next topic number is below 2^64 - 1, a well-formed request of
  -- `subscribe`, for a node of the connection, succeeds
  -- exactly if there is no topic of the name, or one with the same type name, type hash and transport.
  -- Then the subscriber is entered under the next number, on the topic that the name now leads to; else
  -- no subscriber changes and the name leads where it led. Publishers stay as they are.
  pub subscribe_lem :
      (path : List ℕ) (queue : SharedQueueMetadata)
      → (valid_request r && not (is_empty path) && valid_queue_metadata r.transport queue) ≡ true
      → (s' : RegistryState) × (res : EndpointResult) × (subscribe s connection i r path queue
          ≡ some (s', res))
        × (is_ok res.error ≡ fits false r o)
        × ((x : ℕ)
            → lookup x s'.subscribers ≡ (
                if fits false r o && x == s.next_endpoint_id
                then some (subscriber_of s i r path queue res.topic_id)
                else lookup x s.subscribers))
        × (lookup r.topic_name s'.topic_names
            ≡ (if fits false r o then some res.topic_id else lookup r.topic_name s.topic_names))
        × (s'.publishers ≡ s.publishers)
  unfolding subscribe
  subscribe_lem path queue request =
      let clash = conflict_steps s false r o asks in
      elim (Bool-cases (fits false r o)) [
        | inl good ↦
            (let (s', topic, finds, f) = find_for-Found s v.linked r room in
              let free = clash-fits false r o good in
              (
                link_subscriber s' i node topic r path queue,
                record {
                  error = ok;
                  topic_id = topic.topic_id;
                  endpoint_id = s'.next_endpoint_id;
                  pool = topic.pool;
                },
                ground arith,
                sym good,
                λ x.
                    rw (good, f.kept_next_endpoint, f.kept_subscribers)
                      (lookup-emplace s.next_endpoint_id
                        (subscriber_of s i r path queue topic.topic_id) s.subscribers x
                        (next_subscriber-fresh s v.linked)),
                rw good (Found-named s v.linked r s' topic f),
                f.kept_publishers,
              ))
        | inr bad ↦
            (let (e, t, label, not_ok) = clash-misfits false r o bad in
              (s, refused e t, ground arith, not_ok ∙ sym bad, λ x. rw bad refl, rw bad refl, refl))
      ]
