-- ===== src/Registry/Liveness.antt =====
-- `evaluateLiveness`, registry/src/registry_state.cpp.
use cpp_robot_middleware.Prelude.{
  ℕ, ◌+◌, Bool, not, ◌&&◌, List, [], ◌∷◌, Option, some, and_then, leb, if◌then◌else◌, inc64,
}
use cpp_robot_middleware.ErrorCode.{LivenessConfig}
use cpp_robot_middleware.Map.{OrderedMap}
use cpp_robot_middleware.Registry.{RegistryState, NodeRecord, suspected, is_alive, milliseconds}
use cpp_robot_middleware.Registry.Cleanup.{DeadNodeCleanup, cleanup_all}

pub record LivenessUpdate : Type 0 where
  pub suspected_nodes : List ℕ
  pub dead_nodes : List DeadNodeCleanup

-- `elapsed >= timeout`, for the signed `elapsed = now - last_seen`.
abbrev pub overdue : ℕ → ℕ → NodeRecord → Bool
overdue now timeout node = leb (node.last_seen + milliseconds timeout) now

abbrev pub newly_suspected : LivenessConfig → ℕ → NodeRecord → Bool
newly_suspected config now node = overdue now config.suspect_timeout node && is_alive node.liveness

-- What the loop over the nodes computes.
pub record Scan : Type 0 where
  pub nodes : OrderedMap ℕ NodeRecord
  pub suspected_count : ℕ
  pub suspected_nodes : List ℕ
  pub dead_ids : List ℕ

unfoldable pub scan : LivenessConfig → ℕ → OrderedMap ℕ NodeRecord → ℕ → Scan
scan config now [] count = record {
  nodes = [];
  suspected_count = count;
  suspected_nodes = [];
  dead_ids = [];
}
scan config now ((i, node) ∷ nodes) count =
    let newly = newly_suspected config now node in
    let gone = overdue now config.dead_timeout node in
    let rest = scan config now nodes (if newly then inc64 count else count) in
    record {
      nodes = (i, (if newly then record node { liveness = suspected } else node)) ∷ rest.nodes;
      suspected_count = rest.suspected_count;
      suspected_nodes =
          if newly && not gone then node.node_id ∷ rest.suspected_nodes else rest.suspected_nodes;
      dead_ids = if gone then node.node_id ∷ rest.dead_ids else rest.dead_ids;
    }

abbrev pub scanned : RegistryState → Scan → RegistryState
scanned s found = record s {
  nodes = found.nodes;
  metrics = record s.metrics { suspected_count = found.suspected_count };
}

unfoldable pub evaluate_liveness : RegistryState → ℕ → Option (RegistryState × LivenessUpdate)
evaluate_liveness s now =
    let found = scan s.liveness now s.nodes s.metrics.suspected_count in
    and_then (cleanup_all (scanned s found) found.dead_ids []) (λ (s', gone).
      some (s', record { suspected_nodes = found.suspected_nodes; dead_nodes = gone }))
