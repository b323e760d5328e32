-- ===== src/Registry/Unlink.antt =====
-- `unadvertise` and `unsubscribe` against the invariant.
use cpp_robot_middleware.Prelude.{ℕ, ◌≡◌, refl, ◌∙◌, none, some, arith, ◌==◌, bytes_eq}
use cpp_robot_middleware.Map.{
  lookup, insert, erase, lookup-insert, lookup-erase, has, exclude, has-exclude, id_key, name_key,
}
use cpp_robot_middleware.Registry.{
  RegistryState, NodeRecord, TopicRecord, PublisherEndpoint, SubscriberEndpoint, no_pool,
}
use cpp_robot_middleware.Registry.Endpoints.{unlink_publisher, unlink_subscriber}
use cpp_robot_middleware.Registry.Invariant.{
  holds, holds-update, law-update, own_node, own_topic, IsLinked,
}

module _ (s : RegistryState) (v : IsLinked s) (i e : ℕ) (node : NodeRecord) (topic : TopicRecord)
    (p : PublisherEndpoint) (there : lookup i s.nodes ≡ some node)
    (entered : lookup e s.publishers ≡ some p) (owns : p.node_id ≡ i)
    (on : lookup p.topic_id s.topics ≡ some topic) where
  abbrev node' : NodeRecord
  node' = record node { publisher_endpoints = exclude e node.publisher_endpoints }

  abbrev topic' : TopicRecord
  topic' = record topic { publisher_endpoint = none; pool = no_pool }

  unlink-nodes :
      (j x : ℕ)
      → holds (lookup j (insert i node' s.nodes)) (λ r. has x r.publisher_endpoints)
        ≡ holds (lookup x (erase e s.publishers)) (λ q. q.node_id == j)
  unlink-nodes j x = ground (
    arith,
    lookup-insert i node' s.nodes j,
    lookup-erase e s.publishers x,
    has-exclude e node.publisher_endpoints x,
    v.node_publishers j x,
    v.node_publishers j e,
  )

  unlink-topics :
      (t x : ℕ)
      → holds
          (lookup t (insert p.topic_id topic' s.topics))
          (λ r. holds r.publisher_endpoint (λ y. y == x))
        ≡ holds (lookup x (erase e s.publishers)) (λ q. q.topic_id == t)
  unlink-topics t x = ground (
    arith,
    lookup-insert p.topic_id topic' s.topics t,
    lookup-erase e s.publishers x,
    v.topic_publisher t x,
    v.topic_publisher t e,
  )

  pub unlink_publisher-IsLinked : IsLinked (unlink_publisher s i node e p.topic_id topic)
  unlink_publisher-IsLinked = record {
    nodes_own =
        λ j. law-update i node' s.nodes there (own_node s.next_node_id j) refl j (v.nodes_own j);
    topics_own = λ t.
        law-update p.topic_id topic' s.topics on (own_topic s.next_topic_id t) refl t
          (v.topics_own t);
    publishers_own = λ x. ground (arith, lookup-erase e s.publishers x, v.publishers_own x);
    subscribers_own = v.subscribers_own;
    nodes_named = λ j name.
        holds-update i node' s.nodes there (λ r. bytes_eq name r.node_name) refl j
        ∙ v.nodes_named j name;
    topics_named = λ t name.
        holds-update p.topic_id topic' s.topics on (λ r. bytes_eq name r.topic_name) refl t
        ∙ v.topics_named t name;
    node_publishers = unlink-nodes;
    node_subscribers = λ j x.
        holds-update i node' s.nodes there (λ r. has x r.subscriber_endpoints) refl j
        ∙ v.node_subscribers j x;
    topic_publisher = unlink-topics;
    topic_subscribers = λ t x.
        holds-update p.topic_id topic' s.topics on (λ r. has x r.subscriber_endpoints) refl t
        ∙ v.topic_subscribers t x;
  }

module _ (s : RegistryState) (v : IsLinked s) (i e : ℕ) (node : NodeRecord) (topic : TopicRecord)
    (p : SubscriberEndpoint) (there : lookup i s.nodes ≡ some node)
    (entered : lookup e s.subscribers ≡ some p) (owns : p.node_id ≡ i)
    (on : lookup p.topic_id s.topics ≡ some topic) where
  abbrev left_node : NodeRecord
  left_node = record node { subscriber_endpoints = exclude e node.subscriber_endpoints }

  abbrev left_topic : TopicRecord
  left_topic = record topic { subscriber_endpoints = exclude e topic.subscriber_endpoints }

  left-nodes :
      (j x : ℕ)
      → holds (lookup j (insert i left_node s.nodes)) (λ r. has x r.subscriber_endpoints)
        ≡ holds (lookup x (erase e s.subscribers)) (λ q. q.node_id == j)
  left-nodes j x = ground (
    arith,
    lookup-insert i left_node s.nodes j,
    lookup-erase e s.subscribers x,
    has-exclude e node.subscriber_endpoints x,
    v.node_subscribers j x,
    v.node_subscribers j e,
  )

  left-topics :
      (t x : ℕ)
      → holds (lookup t (insert p.topic_id left_topic s.topics)) (λ r. has x r.subscriber_endpoints)
        ≡ holds (lookup x (erase e s.subscribers)) (λ q. q.topic_id == t)
  left-topics t x = ground (
    arith,
    lookup-insert p.topic_id left_topic s.topics t,
    lookup-erase e s.subscribers x,
    has-exclude e topic.subscriber_endpoints x,
    v.topic_subscribers t x,
    v.topic_subscribers t e,
  )

  pub unlink_subscriber-IsLinked : IsLinked (unlink_subscriber s i node e p.topic_id topic)
  unlink_subscriber-IsLinked = record {
    nodes_own = λ j.
        law-update i left_node s.nodes there (own_node s.next_node_id j) refl j (v.nodes_own j);
    topics_own = λ t.
        law-update p.topic_id left_topic s.topics on (own_topic s.next_topic_id t) refl t
          (v.topics_own t);
    publishers_own = v.publishers_own;
    subscribers_own = λ x. ground (arith, lookup-erase e s.subscribers x, v.subscribers_own x);
    nodes_named = λ j name.
        holds-update i left_node s.nodes there (λ r. bytes_eq name r.node_name) refl j
        ∙ v.nodes_named j name;
    topics_named = λ t name.
        holds-update p.topic_id left_topic s.topics on (λ r. bytes_eq name r.topic_name) refl t
        ∙ v.topics_named t name;
    node_publishers = λ j x.
        holds-update i left_node s.nodes there (λ r. has x r.publisher_endpoints) refl j
        ∙ v.node_publishers j x;
    node_subscribers = left-nodes;
    topic_publisher = λ t x.
        holds-update p.topic_id left_topic s.topics on
          (λ r. holds r.publisher_endpoint (λ y. y == x)) refl t
        ∙ v.topic_publisher t x;
    topic_subscribers = left-topics;
  }
