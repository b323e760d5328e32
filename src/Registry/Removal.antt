-- ===== src/Registry/Removal.antt =====
-- What the removal of a node's endpoints leaves as it was.
use cpp_robot_middleware.Prelude.{
  ℕ, ◌≡◌, refl, sym, ◌∙◌, Bool, true, false, none, some, arith, ◌==◌, Bool-cases, inl, inr,
}
use cpp_robot_middleware.Map.{
  insert-IsSorted, lookup, insert, lookup-insert, exclude, id_key, name_key,
}
use cpp_robot_middleware.Registry.{
  RegistryState, NodeRecord, TopicRecord, PublisherEndpoint, SubscriberEndpoint, no_pool,
}
use cpp_robot_middleware.Registry.Endpoints.{unlink_publisher, unlink_subscriber}
use cpp_robot_middleware.Registry.Invariant.{size_of, IsSized, holds, IsOccupied, IsValid}
use cpp_robot_middleware.Registry.Sizes.{drop_publisher-size, drop_subscriber-size}
use cpp_robot_middleware.Registry.Settle.{Settled, lookup-insert_self}

-- The endpoint is there, and it is the node's.
abbrev pub published_by : RegistryState → ℕ → ℕ → Bool
published_by s i e = holds (lookup e s.publishers) (λ p. p.node_id == i)

abbrev pub subscribed_by : RegistryState → ℕ → ℕ → Bool
subscribed_by s i e = holds (lookup e s.subscribers) (λ p. p.node_id == i)

-- The node keeps its name and connection, and the other nodes are the same.
pub record Leaves (s : RegistryState) (i : ℕ) (node : NodeRecord) (s' : RegistryState)
    : Type 0 where
  pub valid : IsValid s'
  pub left : NodeRecord
  pub there : lookup i s'.nodes ≡ some left
  pub same_name : left.node_name ≡ node.node_name
  pub same_connection : left.control_connection ≡ node.control_connection
  pub other_nodes : (j : ℕ) → (j == i) ≡ false → lookup j s'.nodes ≡ lookup j s.nodes
  pub kept_names : s'.node_names ≡ s.node_names
  pub kept_next_node : s'.next_node_id ≡ s.next_node_id
  pub kept_next_topic : s'.next_topic_id ≡ s.next_topic_id
  pub kept_next_endpoint : s'.next_endpoint_id ≡ s.next_endpoint_id
  pub kept_liveness : s'.liveness ≡ s.liveness
  pub kept_metrics : s'.metrics ≡ s.metrics

pub Leaves-refl :
    (s : RegistryState) (i : ℕ) (node : NodeRecord)
    → IsValid s
    → lookup i s.nodes ≡ some node
    → Leaves s i node s
Leaves-refl s i node v there = record {
  valid = v;
  left = node;
  there = there;
  same_name = refl;
  same_connection = refl;
  other_nodes = λ j apart. refl;
  kept_names = refl;
  kept_next_node = refl;
  kept_next_topic = refl;
  kept_next_endpoint = refl;
  kept_liveness = refl;
  kept_metrics = refl;
}

pub Leaves-trans :
    (s : RegistryState) (i : ℕ) (node : NodeRecord) (s₁ s₂ : RegistryState) (a : Leaves s i node s₁)
    → Leaves s₁ i a.left s₂
    → Leaves s i node s₂
Leaves-trans s i node s₁ s₂ a b = record {
  valid = b.valid;
  left = b.left;
  there = b.there;
  same_name = b.same_name ∙ a.same_name;
  same_connection = b.same_connection ∙ a.same_connection;
  other_nodes = λ j apart. b.other_nodes j apart ∙ a.other_nodes j apart;
  kept_names = b.kept_names ∙ a.kept_names;
  kept_next_node = b.kept_next_node ∙ a.kept_next_node;
  kept_next_topic = b.kept_next_topic ∙ a.kept_next_topic;
  kept_next_endpoint = b.kept_next_endpoint ∙ a.kept_next_endpoint;
  kept_liveness = b.kept_liveness ∙ a.kept_liveness;
  kept_metrics = b.kept_metrics ∙ a.kept_metrics;
}

-- The other topics were in use, and the settled one is.
Settled-IsOccupied :
    (s u : RegistryState) (t : ℕ) (topic : TopicRecord) (s' : RegistryState)
    → IsOccupied s
    → u.topics ≡ insert t topic s.topics
    → Settled u t s'
    → IsOccupied s'
Settled-IsOccupied s u t topic s' occupied step done j = elim (Bool-cases (j == t)) [
  | inl same ↦ rw (==→eq j t same) done.used
  | inr apart ↦ rw (done.others j apart, step, lookup-insert t topic s.topics j, apart) (occupied j)
]
  where
    ==→eq : (a b : ℕ) → (a == b) ≡ true → a ≡ b
    ==→eq a b h = ground arith

-- The other topics had their sizes, and the settled one has its own.
Settled-IsSized :
    (s u : RegistryState) (t : ℕ) (topic : TopicRecord) (s' : RegistryState)
    → IsSized s
    → u.topics ≡ insert t topic s.topics
    → ((j : ℕ) (other : TopicRecord)
        → lookup j s.topics ≡ some other
        → (j == t) ≡ false
        → size_of s' other ≡ size_of s other)
    → Settled u t s'
    → IsSized s'
Settled-IsSized s u t topic s' sized step same done j other on = elim (Bool-cases (j == t)) [
  | inl here ↦ done.sized other (rw (==→eq j t here) at on)
  | inr apart ↦
      (let old : lookup j u.topics ≡ lookup j s.topics =
          rw (step, lookup-insert t topic s.topics j, apart) refl in
        let before : lookup j s.topics ≡ some other = sym (done.others j apart ∙ old) ∙ on in
        same j other before apart ∙ sized j other before)
]
  where
    ==→eq : (a b : ℕ) → (a == b) ≡ true → a ≡ b
    ==→eq a b h = ground arith

module _ (s : RegistryState) (v : IsValid s) (i e : ℕ) (node : NodeRecord) (topic : TopicRecord)
    (there : lookup i s.nodes ≡ some node) where
  module _ (p : PublisherEndpoint) (entered : lookup e s.publishers ≡ some p) (owns : p.node_id ≡ i)
      (on : lookup p.topic_id s.topics ≡ some topic) (s' : RegistryState)
      (done : Settled (unlink_publisher s i node e p.topic_id topic) p.topic_id s') where
    pub unadvertised-Leaves : Leaves s i node s'
    unadvertised-Leaves = record {
      valid = record {
        linked = done.linked;
        occupied =
            Settled-IsOccupied s (unlink_publisher s i node e p.topic_id topic) p.topic_id
              (record topic { publisher_endpoint = none; pool = no_pool }) s' v.occupied refl done;
        ordered = rw done.kept_nodes (
            insert-IsSorted i
              (record node { publisher_endpoints = exclude e node.publisher_endpoints }) s.nodes
              v.ordered);
        sized =
            Settled-IsSized s (unlink_publisher s i node e p.topic_id topic) p.topic_id
              (record topic { publisher_endpoint = none; pool = no_pool }) s' v.sized refl
              (λ j other there' apart.
                drop_publisher-size s v.linked j other there' s' e p entered apart
                  done.kept_publishers done.kept_subscribers)
              done;
      };
      left = record node { publisher_endpoints = exclude e node.publisher_endpoints };
      there = rw done.kept_nodes (
          lookup-insert_self i
            (record node { publisher_endpoints = exclude e node.publisher_endpoints }) s.nodes);
      same_name = refl;
      same_connection = refl;
      other_nodes = λ j apart.
          rw
            (
              done.kept_nodes,
              lookup-insert i
                  (record node { publisher_endpoints = exclude e node.publisher_endpoints }) s.nodes
                  j,
              apart,
            )
            refl;
      kept_names = done.kept_names;
      kept_next_node = done.kept_next_node;
      kept_next_topic = done.kept_next_topic;
      kept_next_endpoint = done.kept_next_endpoint;
      kept_liveness = done.kept_liveness;
      kept_metrics = done.kept_metrics;
    }

  module _ (p : SubscriberEndpoint) (entered : lookup e s.subscribers ≡ some p)
      (owns : p.node_id ≡ i) (on : lookup p.topic_id s.topics ≡ some topic) (s' : RegistryState)
      (done : Settled (unlink_subscriber s i node e p.topic_id topic) p.topic_id s') where
    pub unsubscribed-Leaves : Leaves s i node s'
    unsubscribed-Leaves = record {
      valid = record {
        linked = done.linked;
        occupied =
            Settled-IsOccupied s (unlink_subscriber s i node e p.topic_id topic) p.topic_id
              (record topic { subscriber_endpoints = exclude e topic.subscriber_endpoints }) s'
              v.occupied refl done;
        ordered = rw done.kept_nodes (
            insert-IsSorted i
              (record node { subscriber_endpoints = exclude e node.subscriber_endpoints }) s.nodes
              v.ordered);
        sized =
            Settled-IsSized s (unlink_subscriber s i node e p.topic_id topic) p.topic_id
              (record topic { subscriber_endpoints = exclude e topic.subscriber_endpoints }) s'
              v.sized refl
              (λ j other there' apart.
                drop_subscriber-size s v.linked j other there' s' e p entered apart
                  done.kept_subscribers done.kept_publishers)
              done;
      };
      left = record node { subscriber_endpoints = exclude e node.subscriber_endpoints };
      there = rw done.kept_nodes (
          lookup-insert_self i
            (record node { subscriber_endpoints = exclude e node.subscriber_endpoints }) s.nodes);
      same_name = refl;
      same_connection = refl;
      other_nodes = λ j apart.
          rw
            (
              done.kept_nodes,
              lookup-insert i
                  (record node { subscriber_endpoints = exclude e node.subscriber_endpoints })
                  s.nodes j,
              apart,
            )
            refl;
      kept_names = done.kept_names;
      kept_next_node = done.kept_next_node;
      kept_next_topic = done.kept_next_topic;
      kept_next_endpoint = done.kept_next_endpoint;
      kept_liveness = done.kept_liveness;
      kept_metrics = done.kept_metrics;
    }
