-- ===== src/Registry/Runs.antt =====
-- Sequences of calls of the registry's state.
use cpp_robot_middleware.Prelude.{
  ℕ, ◌+◌, ◌≡◌, ◌<◌, ◌≤◌, refl, subst, List, [], ◌∷◌, some, arith, length, Bool-cases, inl, inr,
  u64_max, lt→ltb,
}
use cpp_robot_middleware.ErrorCode.{LivenessConfig, valid_liveness_config}
use cpp_robot_middleware.Map.{id_key, name_key}
use cpp_robot_middleware.Registry.{RegistryState, new_registry, empty_state}
use cpp_robot_middleware.Registry.Calls.{Call, run}
use cpp_robot_middleware.Registry.Invariant.{IsValid, Within}
use cpp_robot_middleware.Registry.Steps.{step_total}

run_from :
    (cs : List Call) (n : ℕ) (s : RegistryState)
    → IsValid s
    → Within n s
    → n + length cs ≤ u64_max
    → (s' : RegistryState) × (run s cs ≡ some s') × IsValid s' × Within (n + length cs) s'
unfolding run
run_from [] n s v w few = (
  s,
  refl,
  v,
  record {
    node_room = ground (arith, w.node_room);
    topic_room = ground (arith, w.topic_room);
    endpoint_room = ground (arith, w.endpoint_room);
  },
)
run_from (c ∷ cs) n s v w few =
    let (s₁, goes, v₁, w₁) = step_total n s v w (lt→ltb n u64_max (omega arith)) c in
    let (s₂, rest, v₂, w₂) = run_from cs (n + 1) s₁ v₁ w₁ (omega arith) in
    (
      s₂,
      rw goes rest,
      v₂,
      record {
        node_room = ground (arith, w₂.node_room);
        topic_room = ground (arith, w₂.topic_room);
        endpoint_room = ground (arith, w₂.endpoint_room);
      },
    )

empty-IsValid :
    (config : LivenessConfig) → IsValid (empty_state config) × Within 1 (empty_state config)
empty-IsValid config = (
  record {
    linked = record {
      nodes_own = λ j. refl;
      topics_own = λ t. refl;
      publishers_own = λ e. refl;
      subscribers_own = λ e. refl;
      nodes_named = λ j name. refl;
      topics_named = λ t name. refl;
      node_publishers = λ j x. refl;
      node_subscribers = λ j x. refl;
      topic_publisher = λ t x. refl;
      topic_subscribers = λ t x. refl;
    };
    occupied = λ t. refl;
    ordered = tt;
    sized = λ t topic h. absurd (cc);
  },
  record { node_room = refl; topic_room = refl; endpoint_room = refl },
)

new_registry-IsValid :
    (config : LivenessConfig) (s : RegistryState)
    → new_registry config ≡ some s
    → IsValid s × Within 1 s
unfolding new_registry
new_registry-IsValid config s h = elim (Bool-cases (valid_liveness_config config)) [
  | inr bad ↦ absurd (ground arith)
  | inl good ↦
      (let made : empty_state config ≡ s = ground arith in
        subst (λ (u : RegistryState). IsValid u × Within 1 u) made (empty-IsValid config))
]

-- From a new registry every sequence of fewer than 2^64 - 1 calls that change its state runs to its
-- end without an exception. In the state that it leaves every node, topic and endpoint is entered
-- under its own number, below the next one to be given out; the two name maps lead exactly from the
-- names of the nodes and topics to their numbers; an endpoint stands in the endpoint sets of exactly
-- its node and its topic; no topic is without endpoints; the nodes ascend by number; and the size of
-- every topic is the least of its endpoints' sizes, as recomputing finds it.
pub run_total :
    (config : LivenessConfig) (s : RegistryState) (cs : List Call)
    → new_registry config ≡ some s
    → length cs < u64_max
    → (s' : RegistryState) × (run s cs ≡ some s') × IsValid s'
run_total config s cs new few =
    let (v, w) = new_registry-IsValid config s new in
    let (s', runs, v', w') = run_from cs 1 s v w (omega arith) in (s', runs, v')
