-- ===== src/Registry/Settle.antt =====
-- `recomputeTopicMaxMessageSize` and `eraseTopicIfEmpty` against the invariant.
use cpp_robot_middleware.Prelude.{
  subst, ℕ, ◌≡◌, refl, ◌∙◌, true, false, List, [], ◌∷◌, some, arith, min, u64_max, ◌==◌,
  if◌then◌else◌, bytes_eq, bytes_eq_iff, Bool-cases, Option-cases, inl, inr, and_then,
}
use cpp_robot_middleware.Map.{
  OrderedMap, lookup, insert, erase, lookup-insert, lookup-erase, has, id_key, name_key,
}
use cpp_robot_middleware.Registry.{RegistryState, TopicRecord, SubscriberEndpoint, is_some}
use cpp_robot_middleware.Registry.Topics.{
  set_topic, with_publisher, with_subscribers, recompute_topic_max_message_size,
  erase_topic_if_empty,
}
use cpp_robot_middleware.Registry.Endpoints.{settle_topic}
use cpp_robot_middleware.Registry.Invariant.{
  size_of, holds, holds-update, law-update, own_topic, IsLinked, in_use,
}

-- Only the size of a topic changes.
module _ (s : RegistryState) (v : IsLinked s) (t : ℕ) (topic : TopicRecord) (size : ℕ)
    (on : lookup t s.topics ≡ some topic) where
  abbrev resized : TopicRecord
  resized = record topic { max_message_size = size }

  pub resize-IsLinked : IsLinked (set_topic s t (record topic { max_message_size = size }))
  resize-IsLinked = record {
    nodes_own = v.nodes_own;
    topics_own =
        λ j. law-update t resized s.topics on (own_topic s.next_topic_id j) refl j (v.topics_own j);
    publishers_own = v.publishers_own;
    subscribers_own = v.subscribers_own;
    nodes_named = v.nodes_named;
    topics_named = λ j name.
        holds-update t resized s.topics on (λ r. bytes_eq name r.topic_name) refl j
        ∙ v.topics_named j name;
    node_publishers = v.node_publishers;
    node_subscribers = v.node_subscribers;
    topic_publisher = λ j x.
        holds-update t resized s.topics on (λ r. holds r.publisher_endpoint (λ y. y == x)) refl j
        ∙ v.topic_publisher j x;
    topic_subscribers = λ j x.
        holds-update t resized s.topics on (λ r. has x r.subscriber_endpoints) refl j
        ∙ v.topic_subscribers j x;
  }

-- A topic without endpoints goes.
abbrev pub without_topic : RegistryState → ℕ → TopicRecord → RegistryState
without_topic s t topic = record s {
  topic_names = erase topic.topic_name s.topic_names;
  topics = erase t s.topics;
}

module _ (s : RegistryState) (v : IsLinked s) (t : ℕ) (topic : TopicRecord)
    (on : lookup t s.topics ≡ some topic) (unused : in_use topic ≡ false) where
  gone-named :
      (j : ℕ) (name : List ℕ)
      → holds (lookup j (erase t s.topics)) (λ r. bytes_eq name r.topic_name)
        ≡ holds (lookup name (erase topic.topic_name s.topic_names)) (λ i. i == j)
  gone-named j name = ground (
    arith,
    lookup-erase t s.topics j,
    lookup-erase topic.topic_name s.topic_names name,
    v.topics_named j name,
    v.topics_named t name,
    bytes_eq_iff name topic.topic_name,
  )

  pub gone-IsLinked : IsLinked (without_topic s t topic)
  gone-IsLinked = record {
    nodes_own = v.nodes_own;
    topics_own = λ j. ground (arith, lookup-erase t s.topics j, v.topics_own j);
    publishers_own = v.publishers_own;
    subscribers_own = v.subscribers_own;
    nodes_named = v.nodes_named;
    topics_named = gone-named;
    node_publishers = v.node_publishers;
    node_subscribers = v.node_subscribers;
    topic_publisher = λ j x. ground (arith, lookup-erase t s.topics j, v.topic_publisher j x);
    topic_subscribers = λ j x. ground (arith, lookup-erase t s.topics j, v.topic_subscribers j x);
  }

-- Every subscriber that a topic lists is entered.
with_subscribers-total :
    (m : OrderedMap ℕ SubscriberEndpoint) (es : List ℕ) (maximum : ℕ)
    → ((x : ℕ) → has x es ≡ true → is_some (lookup x m) ≡ true)
    → (size : ℕ) × (with_subscribers m es maximum ≡ some size)
unfolding with_subscribers
with_subscribers-total m [] maximum listed = (maximum, refl)
with_subscribers-total m (e ∷ es) maximum listed = elim (Option-cases (lookup e m)) [
  | inl e0 ↦ (let bad = listed e (ground arith) in cc)
  | inr (r, e1) ↦ rw e1 (
      with_subscribers-total m es (min maximum r.max_message_size) (λ x h. listed x (ground arith)))
]

-- What the two last steps of removing an endpoint leave as it was.
pub record Settled (s : RegistryState) (t : ℕ) (s' : RegistryState) : Type 0 where
  pub linked : IsLinked s'
  pub others : (j : ℕ) → (j == t) ≡ false → lookup j s'.topics ≡ lookup j s.topics
  pub used : holds (lookup t s'.topics) in_use ≡ is_some (lookup t s'.topics)
  pub sized :
      (topic : TopicRecord)
      → lookup t s'.topics ≡ some topic
      → size_of s' topic ≡ some topic.max_message_size
  pub kept_nodes : s'.nodes ≡ s.nodes
  pub kept_names : s'.node_names ≡ s.node_names
  pub kept_publishers : s'.publishers ≡ s.publishers
  pub kept_subscribers : s'.subscribers ≡ s.subscribers
  pub kept_next_node : s'.next_node_id ≡ s.next_node_id
  pub kept_next_topic : s'.next_topic_id ≡ s.next_topic_id
  pub kept_next_endpoint : s'.next_endpoint_id ≡ s.next_endpoint_id
  pub kept_liveness : s'.liveness ≡ s.liveness
  pub kept_metrics : s'.metrics ≡ s.metrics

module _ (s : RegistryState) (v : IsLinked s) (t : ℕ) (topic : TopicRecord)
    (on : lookup t s.topics ≡ some topic) where
  with_publisher-total :
      (maximum : ℕ)
      → (size : ℕ) × (with_publisher s.publishers topic.publisher_endpoint maximum ≡ some size)
  with_publisher-total maximum = elim (Option-cases topic.publisher_endpoint) [
    | inl e0 ↦ (maximum, rw e0 refl)
    | inr (x, e1) ↦ elim (Option-cases (lookup x s.publishers)) [
      | inl n0 ↦ (let bad = v.topic_publisher t x in absurd (ground arith))
      | inr (p, n1) ↦ (min maximum p.max_message_size, rw (e1, with_publisher, n1) refl)
    ]
  ]

  recompute-total :
      (size : ℕ) × (size_of s topic ≡ some size)
      × (recompute_topic_max_message_size s t
          ≡ some (
              if in_use topic then set_topic s t (record topic { max_message_size = size }) else s))
  unfolding recompute_topic_max_message_size
  recompute-total =
      let (first, fe) = with_publisher-total u64_max in
      let (size, se) =
        with_subscribers-total s.subscribers topic.subscriber_endpoints first
          (λ x h. let listed = v.topic_subscribers t x in ground arith) in
      (size, rw (fe, se) refl, rw (on, fe, se) refl)

  -- The topic keeps an endpoint.
  resize-Settled :
      (size : ℕ)
      → size_of s topic ≡ some size
      → in_use topic ≡ true
      → Settled s t (set_topic s t (record topic { max_message_size = size }))
  resize-Settled size found used = record {
    linked = resize-IsLinked s v t topic size on;
    others = λ j apart. rw (lookup-insert t resized' s.topics j, apart) refl;
    used = rw (lookup-insert t resized' s.topics t, same) used;
    sized = λ topic' h.
        (let made : resized' ≡ topic' = ground (arith, lookup-insert t resized' s.topics t) in
          subst
            (λ (r : TopicRecord).
              size_of (set_topic s t (record topic { max_message_size = size })) r
              ≡ some r.max_message_size)
            made found);
    kept_nodes = refl;
    kept_names = refl;
    kept_publishers = refl;
    kept_subscribers = refl;
    kept_next_node = refl;
    kept_next_topic = refl;
    kept_next_endpoint = refl;
    kept_liveness = refl;
    kept_metrics = refl;
  }
    where
      resized' : TopicRecord
      resized' = record topic { max_message_size = size }

      same : (t == t) ≡ true
      same = ground arith

  gone-Settled : in_use topic ≡ false → Settled s t (without_topic s t topic)
  gone-Settled unused = record {
    linked = gone-IsLinked s v t topic on unused;
    others = λ j apart. rw (lookup-erase t s.topics j, apart) refl;
    used = ground (arith, lookup-erase t s.topics t);
    sized = λ topic' h. absurd (ground (arith, lookup-erase t s.topics t));
    kept_nodes = refl;
    kept_names = refl;
    kept_publishers = refl;
    kept_subscribers = refl;
    kept_next_node = refl;
    kept_next_topic = refl;
    kept_next_endpoint = refl;
    kept_liveness = refl;
    kept_metrics = refl;
  }

  erase-unused : in_use topic ≡ false → erase_topic_if_empty s t ≡ without_topic s t topic
  unfolding erase_topic_if_empty
  erase-unused unused = rw (on, erase_topic_if_empty, unused) refl

settle_steps :
    (s : RegistryState) (t : ℕ)
    → settle_topic s t
      ≡ and_then (recompute_topic_max_message_size s t) (λ s'. some (erase_topic_if_empty s' t))
unfolding settle_topic
settle_steps s t = refl

erase-used :
    (s : RegistryState) (t : ℕ) (topic : TopicRecord)
    → lookup t s.topics ≡ some topic
    → in_use topic ≡ true
    → erase_topic_if_empty s t ≡ s
unfolding erase_topic_if_empty
erase-used s t topic on used = rw (on, erase_topic_if_empty, used) refl

pub lookup-insert_self :
    {V : Type 0} (k : ℕ) (v : V) (m : OrderedMap ℕ V) → lookup k (insert k v m) ≡ some v
lookup-insert_self k v m = ground (arith, lookup-insert k v m k)

pub settle_topic-Settled :
    (s : RegistryState) (v : IsLinked s) (t : ℕ) (topic : TopicRecord)
    → lookup t s.topics ≡ some topic
    → (s' : RegistryState) × (settle_topic s t ≡ some s') × Settled s t s'
settle_topic-Settled s v t topic on =
    let (size, found, e) = recompute-total s v t topic on in
    elim (Bool-cases (in_use topic)) [
      | inl used ↦ (
        set_topic s t (record topic { max_message_size = size }),
        rw
            (
              settle_steps s t,
              e,
              used,
              erase-used (set_topic s t (record topic { max_message_size = size })) t
                  (record topic { max_message_size = size })
                  (lookup-insert_self t (record topic { max_message_size = size }) s.topics) used,
            )
            refl,
        resize-Settled s v t topic on size found used,
      )
      | inr unused ↦ (
        without_topic s t topic,
        rw (settle_steps s t, e, unused, erase-unused s v t topic on unused) refl,
        gone-Settled s v t topic on unused,
      )
    ]
