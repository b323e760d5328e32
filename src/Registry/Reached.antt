-- ===== src/Registry/Reached.antt =====
-- What holds in every state that calls can lead to from a new registry.
use cpp_robot_middleware.Prelude.{ℕ, ◌≡◌, ◌≢◌, ◌<◌, ◌∙◌, sym, subst, length, List, some, u64_max}
use cpp_robot_middleware.ErrorCode.{LivenessConfig}
use cpp_robot_middleware.Map.{lookup, id_key}
use cpp_robot_middleware.Registry.{RegistryState, TopicRecord, PublisherEndpoint, new_registry}
use cpp_robot_middleware.Registry.Topics.{set_topic, recompute_topic_max_message_size}
use cpp_robot_middleware.Registry.Calls.{Call, run}
use cpp_robot_middleware.Registry.Invariant.{IsValid}
use cpp_robot_middleware.Registry.Runs.{run_total}
use cpp_robot_middleware.Registry.Discovery.{sole_publisher}
use cpp_robot_middleware.Registry.Partings.{recompute_stable}

some_inj : {a b : RegistryState} → some a ≡ some b → a ≡ b
some_inj h = cc

module _ (config : LivenessConfig) (s : RegistryState) (cs : List Call) (s' : RegistryState)
    (new : new_registry config ≡ some s) (few : length cs < u64_max)
    (runs : run s cs ≡ some s') where
  reached-IsValid : IsValid s'
  reached-IsValid =
      let (u, ends, v) = run_total config s cs new few in
      subst IsValid (some_inj (sym ends ∙ runs)) v

  -- In the state that fewer than 2^64 - 1 calls leave of a new registry, the size of a topic, which
  -- `advertise` and `subscribe` have lowered step by step and which the removal of an endpoint has recomputed, is
  -- the one that `recomputeTopicMaxMessageSize` finds: recomputing writes the same topic back.
  pub run-recompute :
      (t : ℕ) (topic : TopicRecord)
      → lookup t s'.topics ≡ some topic
      → recompute_topic_max_message_size s' t ≡ some (set_topic s' t topic)
  run-recompute t topic on = recompute_stable s' t topic reached-IsValid on

  -- In the state that fewer than 2^64 - 1 calls leave of a new registry, two different publishers are on
  -- different topics: whatever was advertised, a topic has one publisher at most.
  pub run-sole_publisher :
      (e e' : ℕ) (p p' : PublisherEndpoint)
      → lookup e s'.publishers ≡ some p
      → lookup e' s'.publishers ≡ some p'
      → e ≢ e'
      → p.topic_id ≢ p'.topic_id
  run-sole_publisher e e' p p' first second other same =
      other (sole_publisher s' e e' p p' reached-IsValid first second same)
