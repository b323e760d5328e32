-- ===== src/Registry/Topics.antt =====
-- Topics: `findOrCreateTopic`, `recomputeTopicMaxMessageSize` and `eraseTopicIfEmpty`,
-- registry/src/registry_state.cpp.
use cpp_robot_middleware.Prelude.{
  ℕ, ◌||◌, not, List, [], ◌∷◌, Option, none, some, and_then, min, if◌then◌else◌, inc64, u64_max,
}
use cpp_robot_middleware.Map.{OrderedMap, lookup, insert, emplace, erase, id_key, name_key}
use cpp_robot_middleware.Registry.{
  RegistryState, TopicRecord, PublisherEndpoint, SubscriberEndpoint, no_pool, is_empty, is_some,
}

abbrev pub set_topic : RegistryState → ℕ → TopicRecord → RegistryState
set_topic s t topic = record s { topics = insert t topic s.topics }

abbrev pub new_topic : ℕ → List ℕ → List ℕ → List ℕ → ℕ → ℕ → TopicRecord
new_topic topic_id topic_name type_name type_hash max_message_size transport = record {
  topic_id = topic_id;
  topic_name = topic_name;
  type_name = type_name;
  type_hash = type_hash;
  transport = transport;
  max_message_size = max_message_size;
  publisher_endpoint = none;
  subscriber_endpoints = [];
  pool = no_pool;
}

-- The state, and the topic that the returned reference names.
unfoldable pub find_or_create_topic :
    RegistryState → List ℕ → List ℕ → List ℕ → ℕ → ℕ → Option (RegistryState × TopicRecord)
find_or_create_topic s topic_name type_name type_hash max_message_size transport =
    let t = s.next_topic_id in
    let topics =
      emplace t (new_topic t topic_name type_name type_hash max_message_size transport) s.topics in
    elim (lookup topic_name s.topic_names) [
      | some found ↦ and_then (lookup found s.topics) (λ topic. some (s, topic))
      | none ↦ and_then (lookup t topics) (λ topic. some (
        record s {
          next_topic_id = inc64 t;
          topics = topics;
          topic_names = emplace topic_name t s.topic_names;
        },
        topic,
      ))
    ]

-- The minimum with the publisher's size.
abbrev pub with_publisher : OrderedMap ℕ PublisherEndpoint → Option ℕ → ℕ → Option ℕ
with_publisher publishers none maximum = some maximum
with_publisher publishers (some e) maximum =
    and_then (lookup e publishers) (λ p. some (min maximum p.max_message_size))

-- The loop over the subscribers.
unfoldable pub with_subscribers : OrderedMap ℕ SubscriberEndpoint → List ℕ → ℕ → Option ℕ
with_subscribers subscribers [] maximum = some maximum
with_subscribers subscribers (e ∷ es) maximum =
    and_then (lookup e subscribers)
      (λ r. with_subscribers subscribers es (min maximum r.max_message_size))

unfoldable pub recompute_topic_max_message_size : RegistryState → ℕ → Option RegistryState
recompute_topic_max_message_size s t = and_then (lookup t s.topics) (λ topic.
    and_then (with_publisher s.publishers topic.publisher_endpoint u64_max) (λ first.
      and_then (with_subscribers s.subscribers topic.subscriber_endpoints first) (λ maximum. some (
        if is_some topic.publisher_endpoint || not (is_empty topic.subscriber_endpoints)
        then set_topic s t (record topic { max_message_size = maximum })
        else s))))

unfoldable pub erase_topic_if_empty : RegistryState → ℕ → RegistryState
erase_topic_if_empty s t = elim (lookup t s.topics) [
  | none ↦ s
  | some topic ↦
      if is_some topic.publisher_endpoint || not (is_empty topic.subscriber_endpoints)
      then s
      else record s {
        topic_names = erase topic.topic_name s.topic_names;
        topics = erase t s.topics;
      }
]
