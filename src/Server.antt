-- ===== src/Server.antt =====
-- The server around the registry's state, registry/src/registry_server.cpp: the requests that it
-- dispatches, the discoveries that wait for a subscriber, and the events that wait for a heartbeat.
-- A file descriptor is a number; an answer that is queued stands in a list of replies; the clock is
-- an argument. `none` is the exception of the registry's state.
pub mod Events
pub mod Dispatch
pub mod Safety
pub mod Waiting
pub mod Departures
mod Tests
use cpp_robot_middleware.Prelude.{
  ℕ, Bool, true, false, List, [], ◌∷◌, ◌++◌, Option, none, some, and_then, if◌then◌else◌, ◌==◌,
}
use cpp_robot_middleware.ErrorCode.{ErrorCode, topic_not_found}
use cpp_robot_middleware.Map.{OrderedMap, lookup, insert, erase, id_key}
use cpp_robot_middleware.Registry.{RegistryState, is_some}
use cpp_robot_middleware.Registry.Cleanup.{PeerEventRecord}
use cpp_robot_middleware.Registry.Queries.{DiscoveryResult, resolve, publisher_endpoint}
use cpp_robot_middleware.Messages.{Item}
use cpp_robot_middleware.Messages.Answers.{discovery_body}

pub record PendingDiscovery : Type 0 where
  pub fd : ℕ
  pub connection_id : ℕ
  pub node_id : ℕ
  pub publisher_endpoint_id : ℕ
  pub request_id : ℕ

-- What `queueResponse` is given: the payload is made of the error, its text and the body.
pub record Reply : Type 0 where
  pub fd : ℕ
  pub request_id : ℕ
  pub error : ErrorCode
  pub body : List Item

-- `clients` has the connection of each open descriptor.
pub record Server : Type 0 where
  pub state : RegistryState
  pub clients : OrderedMap ℕ ℕ
  pub pending : OrderedMap ℕ PendingDiscovery
  pub peer_events : OrderedMap ℕ (List PeerEventRecord)
  pub replies : List Reply

-- An answer to a client that is gone is dropped.
unfoldable pub queue_response : Server → ℕ → ℕ → ErrorCode → List Item → Server
queue_response s fd request_id error body =
    if is_some (lookup fd s.clients)
    then record s {
      replies =
          s.replies
          ++ (record { fd = fd; request_id = request_id; error = error; body = body }) ∷ [];
    }
    else s

abbrev pub is_topic_not_found : ErrorCode → Bool
is_topic_not_found topic_not_found = true
is_topic_not_found _ = false

-- The loop of `completePending`: the map keeps what has no subscriber yet.
unfoldable pub complete_all :
    OrderedMap ℕ PendingDiscovery → Server → Option (Server × OrderedMap ℕ PendingDiscovery)
complete_all [] s = some (s, [])
complete_all ((e, request) ∷ pending) s =
    and_then (resolve s.state request.connection_id request.node_id request.publisher_endpoint_id)
      (λ d. elim (is_topic_not_found d.error) [
        | true ↦ and_then (complete_all pending s) (λ (s', kept). some (s', (e, request) ∷ kept))
        | false ↦
            complete_all pending
              (queue_response s request.fd request.request_id d.error (discovery_body d))
      ])

unfoldable pub complete_pending : Server → Option Server
complete_pending s =
    and_then (complete_all s.pending s) (λ (s', kept). some (record s' { pending = kept }))

-- The loop of `cleanupPending`.
unfoldable pub still_published :
    RegistryState → OrderedMap ℕ PendingDiscovery → OrderedMap ℕ PendingDiscovery
still_published state [] = []
still_published state ((e, request) ∷ pending) =
    let rest = still_published state pending in
    if is_some (publisher_endpoint state e) then (e, request) ∷ rest else rest

unfoldable pub cleanup_pending : Server → Server
cleanup_pending s = record s { pending = still_published s.state s.pending }
