-- ===== src/Registry/Deaths.antt =====
-- What the removal of dead nodes does.
use cpp_robot_middleware.Prelude.{
  ℕ, ◌≡◌, refl, ◌∙◌, List, [], ◌∷◌, ◌++◌, Option, none, some, arith, if◌then◌else◌, Option-cases,
  inl, inr,
}
use cpp_robot_middleware.ErrorCode.{ok}
use cpp_robot_middleware.Map.{lookup, has, id_key, name_key}
use cpp_robot_middleware.Registry.{RegistryState, NodeRecord, is_empty, is_some}
use cpp_robot_middleware.Registry.Endpoints.{unregister_node}
use cpp_robot_middleware.Registry.Cleanup.{
  DeadNodeCleanup, new_cleanup, collect_publishers, collect_subscribers, tell_subscribers,
  tell_publisher, count_dead, cleanup_dead_node, cleanup_all,
}
use cpp_robot_middleware.Registry.Invariant.{holds, IsLinked, IsValid}
use cpp_robot_middleware.Registry.Unadvertise.{owned_node_lem, publisher-topic, subscriber-topic}
use cpp_robot_middleware.Registry.Unregister.{Unregistered, unregister_node_lem}
use cpp_robot_middleware.Registry.Members.{members-IsValid}

module _ (s : RegistryState) (v : IsLinked s) where
  pub collect_publishers-total :
      (es : List ℕ) (c : DeadNodeCleanup)
      → (c' : DeadNodeCleanup) × (collect_publishers s es c ≡ some c')
  unfolding collect_publishers
  collect_publishers-total [] c = (c, refl)
  collect_publishers-total (e ∷ es) c = elim (Option-cases (lookup e s.publishers)) [
    | inl absent ↦ rw (absent, collect_publishers) (collect_publishers-total es c)
    | inr (p, entered) ↦
        (let (topic, on) = publisher-topic s v e p entered in
          rw (entered, collect_publishers, on)
            (collect_publishers-total es (record c {
              pools = if is_empty p.pool.shm_name then c.pools else c.pools ++ p.pool ∷ [];
              peer_events =
                  c.peer_events ++ tell_subscribers s.subscribers e p topic.subscriber_endpoints;
            })))
  ]

  pub collect_subscribers-total :
      (es : List ℕ) (c : DeadNodeCleanup)
      → (c' : DeadNodeCleanup) × (collect_subscribers s es c ≡ some c')
  unfolding collect_subscribers
  collect_subscribers-total [] c = (c, refl)
  collect_subscribers-total (e ∷ es) c = elim (Option-cases (lookup e s.subscribers)) [
    | inl absent ↦ rw (absent, collect_subscribers) (collect_subscribers-total es c)
    | inr (r, entered) ↦
        (let (topic, on) = subscriber-topic s v e r entered in
          rw (entered, collect_subscribers, on)
            (collect_subscribers-total es (record c {
              queues = if is_empty r.queue.shm_name then c.queues else c.queues ++ r.queue ∷ [];
              socket_paths = c.socket_paths ++ r.data_socket_path ∷ [];
              peer_events =
                  c.peer_events ++ tell_publisher s.publishers e r topic.publisher_endpoint;
            })))
  ]

-- The nodes of a list and their endpoints are gone, and the others are the same.
pub record Buried (s : RegistryState) (ids : List ℕ) (s' : RegistryState) : Type 0 where
  pub valid : IsValid s'
  pub nodes : (j : ℕ) → lookup j s'.nodes ≡ (if has j ids then none else lookup j s.nodes)
  pub publishers :
      (x : ℕ)
      → lookup x s'.publishers ≡ (
          if holds (lookup x s.publishers) (λ p. has p.node_id ids)
          then none
          else lookup x s.publishers)
  pub subscribers :
      (x : ℕ)
      → lookup x s'.subscribers ≡ (
          if holds (lookup x s.subscribers) (λ p. has p.node_id ids)
          then none
          else lookup x s.subscribers)
  pub kept_next_node : s'.next_node_id ≡ s.next_node_id
  pub kept_next_topic : s'.next_topic_id ≡ s.next_topic_id
  pub kept_next_endpoint : s'.next_endpoint_id ≡ s.next_endpoint_id
  pub kept_liveness : s'.liveness ≡ s.liveness

Unregistered-Buried :
    (s : RegistryState) (i : ℕ) (s' : RegistryState)
    → Unregistered s i s'
    → Buried s (i ∷ []) (count_dead s')
Unregistered-Buried s i s' u = record {
  valid = members-IsValid s' u.valid s'.nodes (count_dead s').metrics u.valid.ordered (λ j. refl);
  nodes = λ j. ground (arith, u.nodes j);
  publishers = λ x. ground (arith, u.publishers x);
  subscribers = λ x. ground (arith, u.subscribers x);
  kept_next_node = u.kept_next_node;
  kept_next_topic = u.kept_next_topic;
  kept_next_endpoint = u.kept_next_endpoint;
  kept_liveness = u.kept_liveness;
}

-- A node that is not there has no endpoints.
absent-Buried :
    (s : RegistryState) (i : ℕ) → IsValid s → lookup i s.nodes ≡ none → Buried s (i ∷ []) s
absent-Buried s i v absent = record {
  valid = v;
  nodes = λ j. ground arith;
  publishers = λ x. ground (arith, v.linked.node_publishers i x);
  subscribers = λ x. ground (arith, v.linked.node_subscribers i x);
  kept_next_node = refl;
  kept_next_topic = refl;
  kept_next_endpoint = refl;
  kept_liveness = refl;
}

cleanup_steps :
    (s : RegistryState) (i : ℕ) (node : NodeRecord) (c c' : DeadNodeCleanup) (s' : RegistryState)
    → lookup i s.nodes ≡ some node
    → node.node_id ≡ i
    → collect_publishers s node.publisher_endpoints (new_cleanup node) ≡ some c
    → collect_subscribers s node.subscriber_endpoints c ≡ some c'
    → unregister_node s node.control_connection i ≡ some (s', ok)
    → cleanup_dead_node s i ≡ some (count_dead s', some c')
unfolding cleanup_dead_node
cleanup_steps s i node c c' s' there own collects collects' goes = ground arith

pub cleanup_dead_node_lem :
    (s : RegistryState) (i : ℕ)
    → IsValid s
    → (s' : RegistryState) × (c : Option DeadNodeCleanup) × (cleanup_dead_node s i ≡ some (s', c))
      × (is_some c ≡ is_some (lookup i s.nodes))
      × Buried s (i ∷ []) s'
unfolding cleanup_dead_node
cleanup_dead_node_lem s i v = elim (Option-cases (lookup i s.nodes)) [
  | inl absent ↦
      (s, none, rw (absent, cleanup_dead_node) refl, rw absent refl, absent-Buried s i v absent)
  | inr (node, there) ↦
      (let (c, collects) =
          collect_publishers-total s v.linked node.publisher_endpoints (new_cleanup node) in
        let (c', collects') = collect_subscribers-total s v.linked node.subscriber_endpoints c in
        let own : node.node_id ≡ i = ground (arith, v.linked.nodes_own i) in
        let (s', goes, u) =
          unregister_node_lem s node.control_connection i v
            (owned_node_lem s node.control_connection i there refl) in
        (
          count_dead s',
          some c',
          cleanup_steps s i node c c' s' there own collects collects' goes,
          rw there refl,
          Unregistered-Buried s i s' u,
        ))
]

Buried-cons :
    (s : RegistryState) (i : ℕ) (ids : List ℕ) (s₁ s₂ : RegistryState)
    → Buried s (i ∷ []) s₁
    → Buried s₁ ids s₂
    → Buried s (i ∷ ids) s₂
Buried-cons s i ids s₁ s₂ a b = record {
  valid = b.valid;
  nodes = λ j. ground (arith, a.nodes j, b.nodes j);
  publishers = λ x. ground (arith, a.publishers x, b.publishers x);
  subscribers = λ x. ground (arith, a.subscribers x, b.subscribers x);
  kept_next_node = b.kept_next_node ∙ a.kept_next_node;
  kept_next_topic = b.kept_next_topic ∙ a.kept_next_topic;
  kept_next_endpoint = b.kept_next_endpoint ∙ a.kept_next_endpoint;
  kept_liveness = b.kept_liveness ∙ a.kept_liveness;
}

nobody-Buried : (s : RegistryState) → IsValid s → Buried s [] s
nobody-Buried s v = record {
  valid = v;
  nodes = λ j. refl;
  publishers = λ x. ground arith;
  subscribers = λ x. ground arith;
  kept_next_node = refl;
  kept_next_topic = refl;
  kept_next_endpoint = refl;
  kept_liveness = refl;
}

pub cleanup_all_lem :
    (ids : List ℕ) (s : RegistryState) (done : List DeadNodeCleanup)
    → IsValid s
    → (s' : RegistryState) × (all : List DeadNodeCleanup) × (cleanup_all s ids done
        ≡ some (s', all))
      × Buried s ids s'
unfolding cleanup_all
cleanup_all_lem [] s done v = (s, done, refl, nobody-Buried s v)
cleanup_all_lem (i ∷ ids) s done v =
    let (s₁, c, goes, given, a) = cleanup_dead_node_lem s i v in
    elim (Option-cases c) [
      | inl nobody ↦
          (let (s₂, all, rest, b) = cleanup_all_lem ids s₁ done a.valid in
            (s₂, all, ground arith, Buried-cons s i ids s₁ s₂ a b))
      | inr (one, found) ↦
          (let (s₂, all, rest, b) = cleanup_all_lem ids s₁ (done ++ one ∷ []) a.valid in
            (s₂, all, ground arith, Buried-cons s i ids s₁ s₂ a b))
    ]
