-- ===== src/Registry/Unadvertise.antt =====
-- What `unadvertise` and `unsubscribe` do.
use cpp_robot_middleware.Prelude.{
  ℕ, ◌≡◌, refl, false, ◌&&◌, none, some, arith, ◌==◌, if◌then◌else◌, Bool-cases, Option-cases, inl,
  inr,
}
use cpp_robot_middleware.ErrorCode.{ok, endpoint_not_found}
use cpp_robot_middleware.Map.{lookup, lookup-erase, exclude, id_key, name_key}
use cpp_robot_middleware.Registry.{
  RegistryState, NodeRecord, TopicRecord, PublisherEndpoint, SubscriberEndpoint, no_pool,
}
use cpp_robot_middleware.Registry.Nodes.{owned_node}
use cpp_robot_middleware.Registry.Endpoints.{
  unlink_publisher, unlink_subscriber, unadvertise, unsubscribe,
}
use cpp_robot_middleware.Registry.Invariant.{IsLinked, IsValid}
use cpp_robot_middleware.Registry.Unlink.{unlink_publisher-IsLinked, unlink_subscriber-IsLinked}
use cpp_robot_middleware.Registry.Settle.{settle_topic-Settled, lookup-insert_self}
use cpp_robot_middleware.Registry.Removal.{
  published_by, subscribed_by, Leaves, Leaves-refl, unadvertised-Leaves, unsubscribed-Leaves,
}

pub owned_node-some :
    (s : RegistryState) (connection i : ℕ) {node : NodeRecord}
    → owned_node s connection i ≡ some node
    → (lookup i s.nodes ≡ some node) × (node.control_connection ≡ connection)
unfolding owned_node
owned_node-some s connection i h = ground arith

pub owned_node_lem :
    (s : RegistryState) (connection i : ℕ) {node : NodeRecord}
    → lookup i s.nodes ≡ some node
    → node.control_connection ≡ connection
    → owned_node s connection i ≡ some node
unfolding owned_node
owned_node_lem s connection i there same = ground arith

-- The topic of an endpoint is there.
pub publisher-topic :
    (s : RegistryState) (v : IsLinked s) (e : ℕ) (p : PublisherEndpoint)
    → lookup e s.publishers ≡ some p
    → (topic : TopicRecord) × (lookup p.topic_id s.topics ≡ some topic)
publisher-topic s v e p entered = elim (Option-cases (lookup p.topic_id s.topics)) [
  | inr found ↦ found
  | inl gone ↦ (let bad = v.topic_publisher p.topic_id e in absurd (ground arith))
]

pub subscriber-topic :
    (s : RegistryState) (v : IsLinked s) (e : ℕ) (p : SubscriberEndpoint)
    → lookup e s.subscribers ≡ some p
    → (topic : TopicRecord) × (lookup p.topic_id s.topics ≡ some topic)
subscriber-topic s v e p entered = elim (Option-cases (lookup p.topic_id s.topics)) [
  | inr found ↦ found
  | inl gone ↦ (let bad = v.topic_subscribers p.topic_id e in absurd (ground arith))
]

module _ (s : RegistryState) (v : IsValid s) (connection i e : ℕ) {node : NodeRecord}
    (owned : owned_node s connection i ≡ some node) where
  abbrev Unadvertised : Type 0
  Unadvertised =
      (s' : RegistryState) × (unadvertise s connection i e
        ≡ some (s', (if published_by s i e then ok else endpoint_not_found)))
      × Leaves s i node s'
      × ((x : ℕ)
          → lookup x s'.publishers
            ≡ (if x == e && published_by s i e then none else lookup x s.publishers))
      × (s'.subscribers ≡ s.subscribers)

  unadvertise_other : published_by s i e ≡ false → Unadvertised
  unfolding unadvertise
  unadvertise_other other = (
    s,
    ground arith,
    Leaves-refl s i node v (owned_node-some s connection i owned).0,
    λ x. ground arith,
    refl,
  )

  unadvertise_own :
      (p : PublisherEndpoint) → lookup e s.publishers ≡ some p → p.node_id ≡ i → Unadvertised
  unfolding unadvertise
  unadvertise_own p entered owns =
      let there = (owned_node-some s connection i owned).0 in
      let (topic, on) = publisher-topic s v.linked e p entered in
      let linked = unlink_publisher-IsLinked s v.linked i e node topic p there entered owns on in
      let (s', settles, done) =
        settle_topic-Settled (unlink_publisher s i node e p.topic_id topic) linked p.topic_id
          (record topic { publisher_endpoint = none; pool = no_pool })
          (lookup-insert_self p.topic_id
            (record topic { publisher_endpoint = none; pool = no_pool }) s.topics) in
      (
        s',
        ground arith,
        unadvertised-Leaves s v i e node topic there p entered owns on s' done,
        λ x. rw done.kept_publishers (ground (arith, lookup-erase e s.publishers x)),
        done.kept_subscribers,
      )

  -- On a valid state `unadvertise`, called by the control connection of a node, does not throw. If the
  -- endpoint is a publisher of the node, it returns OK and exactly this publisher is gone; else it
  -- returns ENDPOINT_NOT_FOUND and every publisher stays. The state that it leaves is valid, the node
  -- keeps its name and connection, and subscribers and the other nodes are as they were.
  pub unadvertise_lem : Unadvertised
  unadvertise_lem = elim (Option-cases (lookup e s.publishers)) [
    | inl absent ↦ unadvertise_other (rw absent refl)
    | inr (p, entered) ↦ elim (Bool-cases (p.node_id == i)) [
      | inl owns ↦ unadvertise_own p entered (ground arith)
      | inr other ↦ unadvertise_other (rw entered other)
    ]
  ]

  abbrev Unsubscribed : Type 0
  Unsubscribed =
      (s' : RegistryState) × (unsubscribe s connection i e
        ≡ some (s', (if subscribed_by s i e then ok else endpoint_not_found)))
      × Leaves s i node s'
      × ((x : ℕ)
          → lookup x s'.subscribers
            ≡ (if x == e && subscribed_by s i e then none else lookup x s.subscribers))
      × (s'.publishers ≡ s.publishers)

  unsubscribe_other : subscribed_by s i e ≡ false → Unsubscribed
  unfolding unsubscribe
  unsubscribe_other other = (
    s,
    ground arith,
    Leaves-refl s i node v (owned_node-some s connection i owned).0,
    λ x. ground arith,
    refl,
  )

  unsubscribe_own :
      (p : SubscriberEndpoint) → lookup e s.subscribers ≡ some p → p.node_id ≡ i → Unsubscribed
  unfolding unsubscribe
  unsubscribe_own p entered owns =
      let there = (owned_node-some s connection i owned).0 in
      let (topic, on) = subscriber-topic s v.linked e p entered in
      let linked = unlink_subscriber-IsLinked s v.linked i e node topic p there entered owns on in
      let (s', settles, done) =
        settle_topic-Settled (unlink_subscriber s i node e p.topic_id topic) linked p.topic_id
          (record topic { subscriber_endpoints = exclude e topic.subscriber_endpoints })
          (lookup-insert_self p.topic_id
            (record topic { subscriber_endpoints = exclude e topic.subscriber_endpoints })
            s.topics) in
      (
        s',
        ground arith,
        unsubscribed-Leaves s v i e node topic there p entered owns on s' done,
        λ x. rw done.kept_subscribers (ground (arith, lookup-erase e s.subscribers x)),
        done.kept_publishers,
      )

  pub unsubscribe_lem : Unsubscribed
  unsubscribe_lem = elim (Option-cases (lookup e s.subscribers)) [
    | inl absent ↦ unsubscribe_other (rw absent refl)
    | inr (p, entered) ↦ elim (Bool-cases (p.node_id == i)) [
      | inl owns ↦ unsubscribe_own p entered (ground arith)
      | inr other ↦ unsubscribe_other (rw entered other)
    ]
  ]
