-- ===== src/Registry/Calls.antt =====
-- The calls of the registry's state that change it, as one step.
use cpp_robot_middleware.Prelude.{ℕ, List, [], ◌∷◌, Option, none, some, and_then}
use cpp_robot_middleware.Registry.{RegistryState, SharedPoolMetadata, SharedQueueMetadata}
use cpp_robot_middleware.Registry.Nodes.{
  register_node, attach_heartbeat, heartbeat, detach_heartbeat_connection,
}
use cpp_robot_middleware.Registry.Endpoints.{
  TopicRequest, advertise, unadvertise, subscribe, unsubscribe, unregister_node,
}
use cpp_robot_middleware.Registry.Cleanup.{disconnect_connection}
use cpp_robot_middleware.Registry.Liveness.{evaluate_liveness}

pub data Call : Type 0 where
  register : ℕ → List ℕ → ℕ → Call
  unregister : ℕ → ℕ → Call
  attach : ℕ → ℕ → ℕ → Call
  beat : ℕ → ℕ → ℕ → ℕ → Call
  evaluate : ℕ → Call
  disconnect : ℕ → Call
  detach : ℕ → Call
  publish : ℕ → ℕ → TopicRequest → SharedPoolMetadata → Call
  unpublish : ℕ → ℕ → ℕ → Call
  listen : ℕ → ℕ → TopicRequest → List ℕ → SharedQueueMetadata → Call
  unlisten : ℕ → ℕ → ℕ → Call

abbrev pub state_of : {A : Type 0} → Option (RegistryState × A) → Option RegistryState
state_of none = none
state_of (some out) = some out.0

unfoldable pub step : RegistryState → Call → Option RegistryState
step s (register connection name now) = some (register_node s connection name now).0
step s (unregister connection i) = state_of (unregister_node s connection i)
step s (attach connection i session) = some (attach_heartbeat s connection i session).0
step s (beat connection i session now) = some (heartbeat s connection i session now).0
step s (evaluate now) = state_of (evaluate_liveness s now)
step s (disconnect connection) = state_of (disconnect_connection s connection)
step s (detach connection) = some (detach_heartbeat_connection s connection)
step s (publish connection i r pool) = state_of (advertise s connection i r pool)
step s (unpublish connection i e) = state_of (unadvertise s connection i e)
step s (listen connection i r path queue) = state_of (subscribe s connection i r path queue)
step s (unlisten connection i e) = state_of (unsubscribe s connection i e)

unfoldable pub run : RegistryState → List Call → Option RegistryState
run s [] = some s
run s (c ∷ cs) = and_then (step s c) (λ s'. run s' cs)
