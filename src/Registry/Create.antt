-- ===== src/Registry/Create.antt =====
-- `findOrCreateTopic` against the invariant.
use cpp_robot_middleware.Prelude.{
  ℕ, ◌+◌, ◌≡◌, refl, ◌∙◌, true, false, List, none, some, arith, ltb, leb, ◌==◌, if◌then◌else◌,
  Option-cases, inl, inr, ◌⊎◌, bytes_eq, bytes_eq_iff, inc64, u64_max,
}
use cpp_robot_middleware.Map.{lookup, emplace, lookup-emplace, id_key, name_key}
use cpp_robot_middleware.Registry.{RegistryState, TopicRecord}
use cpp_robot_middleware.Registry.Topics.{new_topic, find_or_create_topic}
use cpp_robot_middleware.Registry.Endpoints.{TopicRequest, find_for}
use cpp_robot_middleware.Registry.Invariant.{holds, IsLinked}
use cpp_robot_middleware.Registry.Link.{next_topic-fresh, inc64_small}

abbrev pub topic_of : TopicRequest → ℕ → TopicRecord
topic_of r t = new_topic t r.topic_name r.type_name r.type_hash r.max_message_size r.transport

-- The state with a new topic.
abbrev pub with_topic : RegistryState → TopicRequest → RegistryState
with_topic s r = record s {
  next_topic_id = inc64 s.next_topic_id;
  topics = emplace s.next_topic_id (topic_of r s.next_topic_id) s.topics;
  topic_names = emplace r.topic_name s.next_topic_id s.topic_names;
}

module _ (s : RegistryState) (v : IsLinked s) (r : TopicRequest)
    (fresh : lookup r.topic_name s.topic_names ≡ none)
    (room : ltb s.next_topic_id u64_max ≡ true) where
  created :
      (j : ℕ)
      → lookup j (emplace s.next_topic_id (topic_of r s.next_topic_id) s.topics)
        ≡ (if j == s.next_topic_id then some (topic_of r s.next_topic_id) else lookup j s.topics)
  created j =
      lookup-emplace s.next_topic_id (topic_of r s.next_topic_id) s.topics j (next_topic-fresh s v)

  named :
      (name : List ℕ)
      → lookup name (emplace r.topic_name s.next_topic_id s.topic_names)
        ≡ (if bytes_eq name r.topic_name then some s.next_topic_id else lookup name s.topic_names)
  named name = lookup-emplace r.topic_name s.next_topic_id s.topic_names name fresh

  created-named :
      (j : ℕ) (name : List ℕ)
      → holds
          (lookup j (emplace s.next_topic_id (topic_of r s.next_topic_id) s.topics))
          (λ q. bytes_eq name q.topic_name)
        ≡ holds (lookup name (emplace r.topic_name s.next_topic_id s.topic_names)) (λ k. k == j)
  created-named j name =
      rw (created j, named name)
        (ground (
          arith,
          v.topics_named j name,
          v.topics_named s.next_topic_id name,
          next_topic-fresh s v,
          bytes_eq_iff name r.topic_name,
        ))

  with_topic-IsLinked : IsLinked (with_topic s r)
  with_topic-IsLinked = record {
    nodes_own = v.nodes_own;
    topics_own = λ j. rw (created j) (ground (arith, v.topics_own j, inc64_small s.next_topic_id));
    publishers_own = v.publishers_own;
    subscribers_own = v.subscribers_own;
    nodes_named = v.nodes_named;
    topics_named = created-named;
    node_publishers = v.node_publishers;
    node_subscribers = v.node_subscribers;
    topic_publisher = λ j x. rw (created j) (
        ground (
          arith,
          v.topic_publisher j x,
          v.topic_publisher s.next_topic_id x,
          next_topic-fresh s v,
        ));
    topic_subscribers = λ j x. rw (created j) (
        ground (
          arith,
          v.topic_subscribers j x,
          v.topic_subscribers s.next_topic_id x,
          next_topic-fresh s v,
        ));
  }

-- The state and the topic that `findOrCreateTopic` gives.
pub record Found (s : RegistryState) (r : TopicRequest) (s' : RegistryState) (topic : TopicRecord)
    : Type 0 where
  pub linked : IsLinked s'
  pub on : lookup topic.topic_id s'.topics ≡ some topic
  pub others : (j : ℕ) → (j == topic.topic_id) ≡ false → lookup j s'.topics ≡ lookup j s.topics
  -- It was there, or it is new.
  pub origin :
      ((lookup r.topic_name s.topic_names ≡ some topic.topic_id)
        × (lookup topic.topic_id s.topics ≡ some topic))
      ⊎ ((lookup r.topic_name s.topic_names ≡ none)
          × (topic ≡ topic_of r topic.topic_id)
          × (lookup topic.topic_id s.topics ≡ none))
  pub kept_nodes : s'.nodes ≡ s.nodes
  pub kept_publishers : s'.publishers ≡ s.publishers
  pub kept_subscribers : s'.subscribers ≡ s.subscribers
  pub kept_next_node : s'.next_node_id ≡ s.next_node_id
  pub kept_next_endpoint : s'.next_endpoint_id ≡ s.next_endpoint_id
  pub next_topic : (n : ℕ) → leb s.next_topic_id n ≡ true → leb s'.next_topic_id (n + 1) ≡ true

-- The name of a topic leads to it.
pub topic_names-topic :
    (s : RegistryState) (v : IsLinked s) (name : List ℕ) (t : ℕ)
    → lookup name s.topic_names ≡ some t
    → (topic : TopicRecord) × (lookup t s.topics ≡ some topic) × (topic.topic_id ≡ t)
topic_names-topic s v name t found = elim (Option-cases (lookup t s.topics)) [
  | inl gone ↦ (let bad = v.topics_named t name in absurd (ground arith))
  | inr (topic, on) ↦ (topic, on, ground (arith, v.topics_own t))
]

pub find_for-Found :
    (s : RegistryState) (v : IsLinked s) (r : TopicRequest)
    → ltb s.next_topic_id u64_max ≡ true
    → (s' : RegistryState) × (topic : TopicRecord) × (find_for s r ≡ some (s', topic))
      × Found s r s' topic
unfolding find_or_create_topic
find_for-Found s v r room = elim (Option-cases (lookup r.topic_name s.topic_names)) [
  | inr (t, found) ↦
      (let (topic, on, own) = topic_names-topic s v r.topic_name t found in
        (
          s,
          topic,
          ground arith,
          record {
            linked = v;
            on = rw own on;
            others = λ j apart. refl;
            origin = inl (found ∙ ground arith, rw own on);
            kept_nodes = refl;
            kept_publishers = refl;
            kept_subscribers = refl;
            kept_next_node = refl;
            kept_next_endpoint = refl;
            next_topic = λ n h. ground arith;
          },
        ))
  | inl fresh ↦ (
    with_topic s r,
    topic_of r s.next_topic_id,
    ground (arith, created s v r fresh room s.next_topic_id),
    record {
      linked = with_topic-IsLinked s v r fresh room;
      on = ground (arith, created s v r fresh room s.next_topic_id);
      others = λ j apart. created s v r fresh room j ∙ (rw apart refl);
      origin = inr (fresh, refl, next_topic-fresh s v);
      kept_nodes = refl;
      kept_publishers = refl;
      kept_subscribers = refl;
      kept_next_node = refl;
      kept_next_endpoint = refl;
      next_topic = λ n h. ground (arith, inc64_small s.next_topic_id);
    },
  )
]
