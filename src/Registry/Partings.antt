-- ===== src/Registry/Partings.antt =====
-- What `disconnectConnection` leaves, and the size that a topic has.
use cpp_robot_middleware.Prelude.{
  ℕ, ◌≡◌, refl, ◌∙◌, true, List, [], ◌∷◌, none, some, arith, ◌==◌, if◌then◌else◌, Bool-cases, inl,
  inr, and_then-some, u64_max,
}
use cpp_robot_middleware.Map.{OrderedMap, lookup, has, IsSorted, id_key, name_key}
use cpp_robot_middleware.Registry.{RegistryState, NodeRecord, TopicRecord, is_empty}
use cpp_robot_middleware.Registry.Nodes.{detach_heartbeat_connection}
use cpp_robot_middleware.Registry.Topics.{
  set_topic, with_publisher, with_subscribers, recompute_topic_max_message_size,
}
use cpp_robot_middleware.Registry.Cleanup.{
  DeadNodeCleanup, cleanup_all, nodes_of, disconnect_connection,
}
use cpp_robot_middleware.Registry.Invariant.{holds, IsValid, in_use}
use cpp_robot_middleware.Registry.Members.{member_of, detach-IsValid, detach_all-member}
use cpp_robot_middleware.Registry.Deaths.{Buried, cleanup_all_lem}

nodes_of-has :
    (connection : ℕ) (nodes : OrderedMap ℕ NodeRecord)
    → IsSorted nodes
    → (j : ℕ)
    → has j (nodes_of connection nodes)
      ≡ holds (lookup j nodes) (λ r. r.control_connection == connection)
unfolding nodes_of
nodes_of-has connection [] sorted j = refl
nodes_of-has connection ((i, node) ∷ nodes) sorted j =
    let rest = nodes_of-has connection nodes sorted.1 j in
    let above = sorted.0 j in
    elim (Bool-cases (node.control_connection == connection)) [
      | inl mine ↦ rw mine (ground arith)
      | inr other ↦ rw other (ground arith)
    ]

detached :
    (s : RegistryState) (connection j : ℕ)
    → member_of (lookup j (detach_heartbeat_connection s connection).nodes)
      ≡ member_of (lookup j s.nodes)
unfolding detach_heartbeat_connection
detached s connection j = detach_all-member connection s.nodes j

disconnect_steps :
    (s : RegistryState) (connection : ℕ) (s' : RegistryState) (all : List DeadNodeCleanup)
    → cleanup_all s (nodes_of connection s.nodes) [] ≡ some (s', all)
    → disconnect_connection s connection
      ≡ some ((if is_empty all then detach_heartbeat_connection s' connection else s'), all)
unfolding disconnect_connection
disconnect_steps s connection s' all runs = rw runs refl

left_members :
    (s s' : RegistryState) (connection : ℕ)
    → IsValid s
    → Buried s (nodes_of connection s.nodes) s'
    → (j : ℕ)
    → member_of (lookup j s'.nodes) ≡ (
        if holds (lookup j s.nodes) (λ r. r.control_connection == connection)
        then none
        else member_of (lookup j s.nodes))
left_members s s' connection v b j =
    ground (arith, b.nodes j, nodes_of-has connection s.nodes v.ordered j)

-- On a valid state `disconnectConnection` does not throw and leaves a valid state. Exactly the nodes
-- whose control connection it was are gone; the others keep number, name and endpoints.
pub disconnect_connection_lem :
    (s : RegistryState) (connection : ℕ)
    → IsValid s
    → (s' : RegistryState) × (all : List DeadNodeCleanup) × (disconnect_connection s connection
        ≡ some (s', all))
      × IsValid s'
      × ((j : ℕ)
          → member_of (lookup j s'.nodes) ≡ (
              if holds (lookup j s.nodes) (λ r. r.control_connection == connection)
              then none
              else member_of (lookup j s.nodes)))
disconnect_connection_lem s connection v =
    let (s', all, runs, b) = cleanup_all_lem (nodes_of connection s.nodes) s [] v in
    let steps = disconnect_steps s connection s' all runs in
    elim (Bool-cases (is_empty all)) [
      | inl idle ↦ (
        detach_heartbeat_connection s' connection,
        all,
        steps ∙ (rw idle refl),
        detach-IsValid s' connection b.valid,
        λ j. detached s' connection j ∙ left_members s s' connection v b j,
      )
      | inr busy ↦ (s', all, steps ∙ (rw busy refl), b.valid, left_members s s' connection v b)
    ]

-- On a valid state the size of a topic, which `advertise` and `subscribe` lower step by step, is
-- the one that `recomputeTopicMaxMessageSize` finds, the least of its endpoints: recomputing writes the same topic back.
pub recompute_stable :
    (s : RegistryState) (t : ℕ) (topic : TopicRecord)
    → IsValid s
    → lookup t s.topics ≡ some topic
    → recompute_topic_max_message_size s t ≡ some (set_topic s t topic)
unfolding recompute_topic_max_message_size
recompute_stable s t topic v on =
    let (first, fe, se) =
      and_then-some (with_publisher s.publishers topic.publisher_endpoint u64_max)
        (λ k. with_subscribers s.subscribers topic.subscriber_endpoints k) (v.sized t topic on) in
    let used : in_use topic ≡ true = ground (arith, v.occupied t) in rw (on, fe, se, used) refl
