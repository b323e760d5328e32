-- ===== src/Registry/Growth.antt =====
-- The size of a topic that gets another endpoint.
use cpp_robot_middleware.Prelude.{
  ℕ, ◌≡◌, ◌≤◌, refl, sym, ap, ◌∙◌, true, false, List, none, some, arith, min, ◌==◌, if◌then◌else◌,
  Bool-cases, inl, inr, and_then-some, u64_max,
}
use cpp_robot_middleware.Map.{
  OrderedMap, lookup, insert, emplace, lookup-insert, lookup-emplace, has, include, id_key,
  name_key,
}
use cpp_robot_middleware.Registry.{
  RegistryState, NodeRecord, TopicRecord, PublisherEndpoint, SubscriberEndpoint, SharedPoolMetadata,
  SharedQueueMetadata,
}
use cpp_robot_middleware.Registry.Topics.{with_publisher, with_subscribers}
use cpp_robot_middleware.Registry.Endpoints.{TopicRequest, link_publisher, link_subscriber}
use cpp_robot_middleware.Registry.Invariant.{IsValid, IsSized, size_of}
use cpp_robot_middleware.Registry.Link.{next_publisher-fresh, next_subscriber-fresh}
use cpp_robot_middleware.Registry.Create.{Found}
use cpp_robot_middleware.Registry.Sizes.{
  with_subscribers-min, with_subscribers-include, add_publisher-size, add_subscriber-size,
}

module _ (s : RegistryState) (v : IsValid s) (r : TopicRequest) (s' : RegistryState)
    (topic : TopicRecord) (f : Found s r s' topic) (bounded : r.max_message_size ≤ u64_max) where
  -- The size before the new endpoint: a new topic starts with the size of the request.
  abbrev Base : Type 0
  Base =
      (first : ℕ) × (z : ℕ) × (with_publisher s'.publishers topic.publisher_endpoint u64_max
        ≡ some first)
      × (with_subscribers s'.subscribers topic.subscriber_endpoints first ≡ some z)
      × (min z r.max_message_size ≡ min topic.max_message_size r.max_message_size)

  base : Base
  unfolding with_subscribers
  base = elim f.origin [
    | inl (found, on) ↦
        (let size = v.sized topic.topic_id topic on in
          let (first, fe, se) =
            and_then-some (with_publisher s.publishers topic.publisher_endpoint u64_max)
              (λ k. with_subscribers s.subscribers topic.subscriber_endpoints k) size in
          (first, topic.max_message_size, rw f.kept_publishers fe, rw f.kept_subscribers se, refl))
    | inr (fresh, new, absent) ↦ (u64_max, u64_max, rw new refl, rw new refl, rw new (ground arith))
  ]

  -- The topics that are not the one with the new endpoint.
  other_on :
      (topic' : TopicRecord) (t : ℕ) (other : TopicRecord)
      → lookup t (insert topic.topic_id topic' s'.topics) ≡ some other
      → (t == topic.topic_id) ≡ false
      → lookup t s.topics ≡ some other
  other_on topic' t other on apart =
      let old : lookup t (insert topic.topic_id topic' s'.topics) ≡ lookup t s'.topics =
        rw (lookup-insert topic.topic_id topic' s'.topics t, apart) refl in
      sym (old ∙ f.others t apart) ∙ on

  this_on :
      (topic' : TopicRecord) (t : ℕ) (other : TopicRecord)
      → lookup t (insert topic.topic_id topic' s'.topics) ≡ some other
      → (t == topic.topic_id) ≡ true
      → topic' ≡ other
  this_on topic' t other on same = ground (arith, lookup-insert topic.topic_id topic' s'.topics t)

  module _ (i : ℕ) (node : NodeRecord) (pool : SharedPoolMetadata)
      (free : topic.publisher_endpoint ≡ none) where
    abbrev published : TopicRecord
    published = record topic {
      publisher_endpoint = some s'.next_endpoint_id;
      pool = pool;
      max_message_size = min topic.max_message_size r.max_message_size;
    }

    abbrev publisher : PublisherEndpoint
    publisher = record {
      endpoint_id = s'.next_endpoint_id;
      node_id = i;
      topic_id = topic.topic_id;
      max_message_size = r.max_message_size;
      transport = r.transport;
      pool = pool;
    }

    published-size :
        size_of (link_publisher s' i node topic r pool) published ≡ some published.max_message_size
    published-size =
        let (first, z, fe, se, low) = base in
        let start : u64_max ≡ first = ground arith in
        let entered =
          lookup-emplace s'.next_endpoint_id publisher s'.publishers s'.next_endpoint_id
            (next_publisher-fresh s' f.linked) in
        let here : lookup s'.next_endpoint_id (emplace s'.next_endpoint_id publisher s'.publishers)
            ≡ some publisher =
          ground (arith, entered) in
        rw here (
          with_subscribers-min s'.subscribers topic.subscriber_endpoints u64_max r.max_message_size
            z (rw start se)
          ∙ ap some low)

    pub link_publisher-IsSized : IsSized (link_publisher s' i node topic r pool)
    link_publisher-IsSized t other on = elim (Bool-cases (t == topic.topic_id)) [
      | inl same ↦ rw (sym (this_on published t other on same)) published-size
      | inr apart ↦
          (let before = other_on published t other on apart in
            add_publisher-size s v.linked t other before (link_publisher s' i node topic r pool)
              s'.next_endpoint_id publisher
              (rw f.kept_next_endpoint (next_publisher-fresh s v.linked))
              (ap (λ (m : OrderedMap ℕ PublisherEndpoint). emplace s'.next_endpoint_id publisher m)
                f.kept_publishers)
              f.kept_subscribers
            ∙ v.sized t other before)
    ]

  module _ (i : ℕ) (node : NodeRecord) (path : List ℕ) (queue : SharedQueueMetadata) where
    abbrev subscribed : TopicRecord
    subscribed = record topic {
      subscriber_endpoints = include s'.next_endpoint_id topic.subscriber_endpoints;
      max_message_size = min topic.max_message_size r.max_message_size;
    }

    abbrev subscriber : SubscriberEndpoint
    subscriber = record {
      endpoint_id = s'.next_endpoint_id;
      node_id = i;
      topic_id = topic.topic_id;
      data_socket_path = path;
      max_message_size = r.max_message_size;
      transport = r.transport;
      queue = queue;
    }

    joined :
        (x : ℕ)
        → lookup x (emplace s'.next_endpoint_id subscriber s'.subscribers)
          ≡ (if x == s'.next_endpoint_id then some subscriber else lookup x s'.subscribers)
    joined x =
        lookup-emplace s'.next_endpoint_id subscriber s'.subscribers x
          (next_subscriber-fresh s' f.linked)

    new_here : has s'.next_endpoint_id topic.subscriber_endpoints ≡ false
    new_here =
        (let on = f.on in
          ground (
            arith,
            f.linked.topic_subscribers topic.topic_id s'.next_endpoint_id,
            next_subscriber-fresh s' f.linked,
          ))

    others_same :
        (x : ℕ)
        → has x topic.subscriber_endpoints ≡ true
        → lookup x (emplace s'.next_endpoint_id subscriber s'.subscribers) ≡ lookup x s'.subscribers
    others_same x h = ground (arith, joined x, new_here)

    subscribed-size :
        size_of (link_subscriber s' i node topic r path queue) subscribed
        ≡ some subscribed.max_message_size
    subscribed-size =
        let (first, z, fe, se, low) = base in
        let here : lookup s'.next_endpoint_id
              (emplace s'.next_endpoint_id subscriber s'.subscribers)
            ≡ some subscriber =
          ground (arith, joined s'.next_endpoint_id) in
        rw fe (
          with_subscribers-include s'.subscribers
            (emplace s'.next_endpoint_id subscriber s'.subscribers) s'.next_endpoint_id subscriber
            topic.subscriber_endpoints first z here new_here others_same se
          ∙ ap some low)

    pub link_subscriber-IsSized : IsSized (link_subscriber s' i node topic r path queue)
    link_subscriber-IsSized t other on = elim (Bool-cases (t == topic.topic_id)) [
      | inl same ↦ rw (sym (this_on subscribed t other on same)) subscribed-size
      | inr apart ↦
          (let before = other_on subscribed t other on apart in
            add_subscriber-size s v.linked t other before
              (link_subscriber s' i node topic r path queue) s'.next_endpoint_id subscriber
              (rw f.kept_next_endpoint (next_subscriber-fresh s v.linked))
              (ap
                (λ (m : OrderedMap ℕ SubscriberEndpoint). emplace s'.next_endpoint_id subscriber m)
                f.kept_subscribers)
              f.kept_publishers
            ∙ v.sized t other before)
    ]
