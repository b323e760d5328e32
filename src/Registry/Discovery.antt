-- ===== src/Registry/Discovery.antt =====
-- What a publisher is told of its subscribers.
use cpp_robot_middleware.Prelude.{
  ℕ, ◌≡◌, refl, ap, ap₂, true, List, [], ◌∷◌, Option, none, some, arith, map, ◌==◌, if◌then◌else◌,
  Bool-cases, Option-cases, inl, inr, bytes_eq,
}
use cpp_robot_middleware.ErrorCode.{ok, topic_not_found}
use cpp_robot_middleware.Map.{OrderedMap, lookup, has, id_key, name_key}
use cpp_robot_middleware.Registry.{
  RegistryState, NodeRecord, TopicRecord, PublisherEndpoint, SubscriberEndpoint, is_empty, is_some,
}
use cpp_robot_middleware.Registry.Nodes.{owned_node}
use cpp_robot_middleware.Registry.Queries.{
  DiscoveredSubscriber, DiscoveryResult, discovered, discover_all, discovery, resolve, query_topic,
}
use cpp_robot_middleware.Registry.Invariant.{holds, IsValid}
use cpp_robot_middleware.Registry.Unadvertise.{publisher-topic}
use cpp_robot_middleware.Registry.Create.{topic_names-topic}

-- On a valid state a topic has one publisher at most: two publisher endpoints with the same topic are
-- one endpoint.
pub sole_publisher :
    (s : RegistryState) (e e' : ℕ) (p p' : PublisherEndpoint)
    → IsValid s
    → lookup e s.publishers ≡ some p
    → lookup e' s.publishers ≡ some p'
    → p.topic_id ≡ p'.topic_id
    → e ≡ e'
sole_publisher s e e' p p' v first second same =
    ground (arith, v.linked.topic_publisher p.topic_id e, v.linked.topic_publisher p.topic_id e')

-- The entry of a subscriber in the answer.
abbrev pub shown : Option SubscriberEndpoint → Option DiscoveredSubscriber
shown none = none
shown (some r) = some (discovered r)

abbrev pub entry : OrderedMap ℕ SubscriberEndpoint → ℕ → Option DiscoveredSubscriber
entry subscribers x = shown (lookup x subscribers)

-- Every identifier in the list has its entry in the answer, in the order of the list.
abbrev pub Lists : OrderedMap ℕ SubscriberEndpoint → List ℕ → List DiscoveredSubscriber → Type 0
Lists subscribers es found = map (entry subscribers) es ≡ map (λ d. some d) found

pub discover_all-Lists :
    (m : OrderedMap ℕ SubscriberEndpoint) (es : List ℕ)
    → ((x : ℕ) → has x es ≡ true → is_some (lookup x m) ≡ true)
    → (found : List DiscoveredSubscriber) × (discover_all m es ≡ some found) × Lists m es found
unfolding discover_all
discover_all-Lists m [] listed = ([], refl, refl)
discover_all-Lists m (e ∷ es) listed = elim (Option-cases (lookup e m)) [
  | inl absent ↦ (let bad = listed e (ground arith) in cc)
  | inr (r, there) ↦
      (let (found, runs, same) = discover_all-Lists m es (λ x h. listed x (ground arith)) in
        (
          discovered r ∷ found,
          rw (there, runs) refl,
          ap₂ (λ (d : Option DiscoveredSubscriber) (l : List (Option DiscoveredSubscriber)). d ∷ l)
              (ap shown there) same,
        ))
]

-- On a valid state `resolve`, called for a publisher by the connection of its node, does not throw.
-- It answers for the topic of the publisher: the subscribers that it names are exactly those whose
-- endpoint is on that topic, each with its path, size and queue as entered; without subscribers
-- the error is TOPIC_NOT_FOUND.
pub resolve_lem :
    (s : RegistryState) (connection i e : ℕ) (node : NodeRecord) (p : PublisherEndpoint)
    → IsValid s
    → owned_node s connection i ≡ some node
    → lookup e s.publishers ≡ some p
    → p.node_id ≡ i
    → (d : DiscoveryResult) × (es : List ℕ) × (resolve s connection i e ≡ some d)
      × (d.topic_id ≡ p.topic_id)
      × ((x : ℕ) → has x es ≡ holds (lookup x s.subscribers) (λ r. r.topic_id == p.topic_id))
      × Lists s.subscribers es d.subscribers
      × (d.error ≡ (if is_empty es then topic_not_found else ok))
unfolding resolve
resolve_lem s connection i e node p v owned entered owns =
    let (topic, on) = publisher-topic s v.linked e p entered in
    let (found, runs, same) =
      discover_all-Lists s.subscribers topic.subscriber_endpoints
        (λ x h. (let law = v.linked.topic_subscribers p.topic_id x in ground arith)) in
    let named : (x : ℕ)
        → has x topic.subscriber_endpoints
          ≡ holds (lookup x s.subscribers) (λ r. r.topic_id == p.topic_id) =
      λ x. ground (arith, v.linked.topic_subscribers p.topic_id x) in
    let own : topic.topic_id ≡ p.topic_id = ground (arith, v.linked.topics_own p.topic_id) in
    elim (Bool-cases (is_empty topic.subscriber_endpoints)) [
      | inl alone ↦ (
        discovery topic_not_found topic [],
        topic.subscriber_endpoints,
        ground arith,
        own,
        named,
        empty_Lists topic.subscriber_endpoints alone,
        rw alone refl,
      )
      | inr heard ↦ (
        discovery ok topic found,
        topic.subscriber_endpoints,
        ground arith,
        own,
        named,
        same,
        rw heard refl,
      )
    ]
  where
    empty_Lists : (es : List ℕ) → is_empty es ≡ true → Lists s.subscribers es []
    empty_Lists [] h = refl
    empty_Lists (x ∷ es) h = cc

-- On a valid state `queryTopic` does not throw; it returns the topic of that name, if there is one.
pub query_topic_lem :
    (s : RegistryState) (name : List ℕ)
    → IsValid s
    → (o : Option TopicRecord) × (query_topic s name ≡ some o)
      × ((t : ℕ)
          → holds (lookup t s.topics) (λ r. bytes_eq name r.topic_name)
            ≡ holds o (λ r. r.topic_id == t))
      × (holds o (λ r. bytes_eq name r.topic_name) ≡ is_some o)
unfolding query_topic
query_topic_lem s name v = elim (Option-cases (lookup name s.topic_names)) [
  | inl absent ↦
      (none, rw (absent, query_topic) refl, λ t. ground (arith, v.linked.topics_named t name), refl)
  | inr (t, found) ↦
      (let (topic, on, own) = topic_names-topic s v.linked name t found in
        (
          some topic,
          rw (found, query_topic, on) refl,
          λ j. ground (arith, v.linked.topics_named j name),
          ground (arith, v.linked.topics_named t name),
        ))
]
