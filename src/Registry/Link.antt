-- ===== src/Registry/Link.antt =====
-- The entries of `advertise` and `subscribe` against the invariant.
use cpp_robot_middleware.Prelude.{
  ℕ, ◌+◌, ◌≡◌, refl, ◌∙◌, true, List, none, some, arith, ltb, min, ◌==◌, if◌then◌else◌, bytes_eq,
  inc64, u64_max,
}
use cpp_robot_middleware.Map.{
  lookup, insert, emplace, lookup-insert, lookup-emplace, has, include, has-include, id_key,
  name_key,
}
use cpp_robot_middleware.Registry.{
  RegistryState, NodeRecord, TopicRecord, PublisherEndpoint, SubscriberEndpoint, SharedPoolMetadata,
  SharedQueueMetadata,
}
use cpp_robot_middleware.Registry.Endpoints.{TopicRequest, link_publisher, link_subscriber}
use cpp_robot_middleware.Registry.Invariant.{
  holds, holds-update, law-update, own_node, own_topic, IsLinked,
}

pub inc64_small : (n : ℕ) → ltb n u64_max ≡ true → inc64 n ≡ n + 1
inc64_small n h = ground arith

-- The next numbers are not in use.
module _ (s : RegistryState) (v : IsLinked s) where
  pub next_topic-fresh : lookup s.next_topic_id s.topics ≡ none
  next_topic-fresh = ground (arith, v.topics_own s.next_topic_id)

  pub next_publisher-fresh : lookup s.next_endpoint_id s.publishers ≡ none
  next_publisher-fresh = ground (arith, v.publishers_own s.next_endpoint_id)

  pub next_subscriber-fresh : lookup s.next_endpoint_id s.subscribers ≡ none
  next_subscriber-fresh = ground (arith, v.subscribers_own s.next_endpoint_id)

  pub next_node-fresh : lookup s.next_node_id s.nodes ≡ none
  next_node-fresh = ground (arith, v.nodes_own s.next_node_id)

module _ (s : RegistryState) (v : IsLinked s) (i : ℕ) (node : NodeRecord) (topic : TopicRecord)
    (r : TopicRequest) (pool : SharedPoolMetadata) (there : lookup i s.nodes ≡ some node)
    (on : lookup topic.topic_id s.topics ≡ some topic) (free : topic.publisher_endpoint ≡ none)
    (room : ltb s.next_endpoint_id u64_max ≡ true) where
  abbrev new_publisher : PublisherEndpoint
  new_publisher = record {
    endpoint_id = s.next_endpoint_id;
    node_id = i;
    topic_id = topic.topic_id;
    max_message_size = r.max_message_size;
    transport = r.transport;
    pool = pool;
  }

  abbrev node' : NodeRecord
  node' = record node { publisher_endpoints = include s.next_endpoint_id node.publisher_endpoints }

  abbrev topic' : TopicRecord
  topic' = record topic {
    publisher_endpoint = some s.next_endpoint_id;
    pool = pool;
    max_message_size = min topic.max_message_size r.max_message_size;
  }

  entered :
      (x : ℕ)
      → lookup x (emplace s.next_endpoint_id new_publisher s.publishers)
        ≡ (if x == s.next_endpoint_id then some new_publisher else lookup x s.publishers)
  entered x =
      lookup-emplace s.next_endpoint_id new_publisher s.publishers x (next_publisher-fresh s v)

  linked-nodes :
      (j x : ℕ)
      → holds (lookup j (insert i node' s.nodes)) (λ q. has x q.publisher_endpoints)
        ≡ holds
            (lookup x (emplace s.next_endpoint_id new_publisher s.publishers))
            (λ q. q.node_id == j)
  linked-nodes j x = rw (entered x) (
      ground (
        arith,
        lookup-insert i node' s.nodes j,
        has-include s.next_endpoint_id node.publisher_endpoints x,
        v.node_publishers j x,
        v.node_publishers j s.next_endpoint_id,
        next_publisher-fresh s v,
      ))

  linked-topics :
      (t x : ℕ)
      → holds
          (lookup t (insert topic.topic_id topic' s.topics))
          (λ q. holds q.publisher_endpoint (λ y. y == x))
        ≡ holds
            (lookup x (emplace s.next_endpoint_id new_publisher s.publishers))
            (λ q. q.topic_id == t)
  linked-topics t x = rw (entered x) (
      ground (
        arith,
        lookup-insert topic.topic_id topic' s.topics t,
        v.topic_publisher t x,
        v.topic_publisher t s.next_endpoint_id,
        next_publisher-fresh s v,
      ))

  pub link_publisher-IsLinked : IsLinked (link_publisher s i node topic r pool)
  link_publisher-IsLinked = record {
    nodes_own =
        λ j. law-update i node' s.nodes there (own_node s.next_node_id j) refl j (v.nodes_own j);
    topics_own = λ t.
        law-update topic.topic_id topic' s.topics on (own_topic s.next_topic_id t) refl t
          (v.topics_own t);
    publishers_own =
        λ x. rw (entered x) (ground (arith, v.publishers_own x, inc64_small s.next_endpoint_id));
    subscribers_own = λ x. ground (arith, v.subscribers_own x, inc64_small s.next_endpoint_id);
    nodes_named = λ j name.
        holds-update i node' s.nodes there (λ q. bytes_eq name q.node_name) refl j
        ∙ v.nodes_named j name;
    topics_named = λ t name.
        holds-update topic.topic_id topic' s.topics on (λ q. bytes_eq name q.topic_name) refl t
        ∙ v.topics_named t name;
    node_publishers = linked-nodes;
    node_subscribers = λ j x.
        holds-update i node' s.nodes there (λ q. has x q.subscriber_endpoints) refl j
        ∙ v.node_subscribers j x;
    topic_publisher = linked-topics;
    topic_subscribers = λ t x.
        holds-update topic.topic_id topic' s.topics on (λ q. has x q.subscriber_endpoints) refl t
        ∙ v.topic_subscribers t x;
  }

module _ (s : RegistryState) (v : IsLinked s) (i : ℕ) (node : NodeRecord) (topic : TopicRecord)
    (r : TopicRequest) (path : List ℕ) (queue : SharedQueueMetadata)
    (there : lookup i s.nodes ≡ some node) (on : lookup topic.topic_id s.topics ≡ some topic)
    (room : ltb s.next_endpoint_id u64_max ≡ true) where
  abbrev new_subscriber : SubscriberEndpoint
  new_subscriber = record {
    endpoint_id = s.next_endpoint_id;
    node_id = i;
    topic_id = topic.topic_id;
    data_socket_path = path;
    max_message_size = r.max_message_size;
    transport = r.transport;
    queue = queue;
  }

  abbrev joined_node : NodeRecord
  joined_node = record node {
    subscriber_endpoints = include s.next_endpoint_id node.subscriber_endpoints;
  }

  abbrev joined_topic : TopicRecord
  joined_topic = record topic {
    subscriber_endpoints = include s.next_endpoint_id topic.subscriber_endpoints;
    max_message_size = min topic.max_message_size r.max_message_size;
  }

  joined :
      (x : ℕ)
      → lookup x (emplace s.next_endpoint_id new_subscriber s.subscribers)
        ≡ (if x == s.next_endpoint_id then some new_subscriber else lookup x s.subscribers)
  joined x =
      lookup-emplace s.next_endpoint_id new_subscriber s.subscribers x (next_subscriber-fresh s v)

  joined-nodes :
      (j x : ℕ)
      → holds (lookup j (insert i joined_node s.nodes)) (λ q. has x q.subscriber_endpoints)
        ≡ holds
            (lookup x (emplace s.next_endpoint_id new_subscriber s.subscribers))
            (λ q. q.node_id == j)
  joined-nodes j x = rw (joined x) (
      ground (
        arith,
        lookup-insert i joined_node s.nodes j,
        has-include s.next_endpoint_id node.subscriber_endpoints x,
        v.node_subscribers j x,
        v.node_subscribers j s.next_endpoint_id,
        next_subscriber-fresh s v,
      ))

  joined-topics :
      (t x : ℕ)
      → holds
          (lookup t (insert topic.topic_id joined_topic s.topics))
          (λ q. has x q.subscriber_endpoints)
        ≡ holds
            (lookup x (emplace s.next_endpoint_id new_subscriber s.subscribers))
            (λ q. q.topic_id == t)
  joined-topics t x = rw (joined x) (
      ground (
        arith,
        lookup-insert topic.topic_id joined_topic s.topics t,
        has-include s.next_endpoint_id topic.subscriber_endpoints x,
        v.topic_subscribers t x,
        v.topic_subscribers t s.next_endpoint_id,
        next_subscriber-fresh s v,
      ))

  pub link_subscriber-IsLinked : IsLinked (link_subscriber s i node topic r path queue)
  link_subscriber-IsLinked = record {
    nodes_own = λ j.
        law-update i joined_node s.nodes there (own_node s.next_node_id j) refl j (v.nodes_own j);
    topics_own = λ t.
        law-update topic.topic_id joined_topic s.topics on (own_topic s.next_topic_id t) refl t
          (v.topics_own t);
    publishers_own = λ x. ground (arith, v.publishers_own x, inc64_small s.next_endpoint_id);
    subscribers_own =
        λ x. rw (joined x) (ground (arith, v.subscribers_own x, inc64_small s.next_endpoint_id));
    nodes_named = λ j name.
        holds-update i joined_node s.nodes there (λ q. bytes_eq name q.node_name) refl j
        ∙ v.nodes_named j name;
    topics_named = λ t name.
        holds-update topic.topic_id joined_topic s.topics on (λ q. bytes_eq name q.topic_name) refl
          t
        ∙ v.topics_named t name;
    node_publishers = λ j x.
        holds-update i joined_node s.nodes there (λ q. has x q.publisher_endpoints) refl j
        ∙ v.node_publishers j x;
    node_subscribers = joined-nodes;
    topic_publisher = λ t x.
        holds-update topic.topic_id joined_topic s.topics on
          (λ q. holds q.publisher_endpoint (λ y. y == x)) refl t
        ∙ v.topic_publisher t x;
    topic_subscribers = joined-topics;
  }
