-- ===== src/Server/Dispatch.antt =====
-- `dispatch`: a request is read, the registry's state is called, and an answer is queued.
use cpp_robot_middleware.Prelude.{
  ℕ, ◌%◌, ◌^◌, Bool, true, false, List, [], ◌∷◌, Option, none, some, and_then, length,
  if◌then◌else◌, ltb, u32_max,
}
use cpp_robot_middleware.ErrorCode.{
  ErrorCode, ok, invalid_argument, invalid_control_message, unknown_opcode, topic_not_found,
}
use cpp_robot_middleware.Map.{insert, erase, id_key}
use cpp_robot_middleware.Control.{is_known_request_opcode}
use cpp_robot_middleware.Registry.{
  RegistryState, NodeRecord, TopicRecord, LivenessState, alive, suspected, dead, is_some,
}
use cpp_robot_middleware.Registry.Nodes as Nodes
use cpp_robot_middleware.Registry.Endpoints.{
  TopicRequest, advertise, unadvertise, subscribe, unsubscribe,
}
use cpp_robot_middleware.Registry.Endpoints as Endpoints
use cpp_robot_middleware.Registry.Cleanup.{
  PeerEventKind, publisher_dead, subscriber_dead, PeerEventRecord,
}
use cpp_robot_middleware.Registry.Queries.{RegistryStatsSnapshot, resolve, stats_snapshot}
use cpp_robot_middleware.Registry.Queries as Queries
use cpp_robot_middleware.Messages.{Item, integer, text}
use cpp_robot_middleware.Messages.Requests.{
  Request, register_node, unregister_node, advertise_topic, unadvertise_topic, subscribe_topic,
  unsubscribe_topic, resolve_endpoint, list_nodes, list_topics, query_topic, attach_heartbeat,
  heartbeat, query_stats, read_request,
}
use cpp_robot_middleware.Messages.Answers.{
  each, registration_items, endpoint_body, discovery_body, pool_items,
}
use cpp_robot_middleware.Server.{
  Server, queue_response, is_topic_not_found, complete_pending, cleanup_pending,
}
use cpp_robot_middleware.Server.Events.{events_of}

abbrev pub liveness_number : LivenessState → ℕ
liveness_number alive = 1
liveness_number suspected = 2
liveness_number dead = 3

abbrev pub kind_number : PeerEventKind → ℕ
kind_number publisher_dead = 1
kind_number subscriber_dead = 2

abbrev pub node_items : NodeRecord → List Item
node_items r = integer 8 r.node_id ∷ text r.node_name ∷ integer 2 (liveness_number r.liveness) ∷ []

abbrev pub topic_items : TopicRecord → List Item
topic_items r = integer 8 r.topic_id ∷ text r.topic_name ∷ []

abbrev pub event_items : PeerEventRecord → List Item
event_items e =
    integer 2 (kind_number e.kind)
    ∷ integer 8 e.target_endpoint_id
    ∷ integer 8 e.dead_endpoint_id
    ∷ integer 8 e.topic_id
    ∷ integer 8 e.resource_id
    ∷ []

abbrev pub counted : {A : Type 0} → (A → List Item) → List A → List Item
counted items_of xs = integer 4 (length xs % 2 ^ 32) ∷ each items_of xs

abbrev pub topic_body : TopicRecord → List Item
topic_body t =
    integer 8 t.topic_id
    ∷ text t.topic_name
    ∷ text t.type_name
    ∷ text t.type_hash
    ∷ integer 2 t.transport
    ∷ integer 8 t.max_message_size
    ∷ integer 8 (if is_some t.publisher_endpoint then 1 else 0)
    ∷ integer 8 (length t.subscriber_endpoints)
    ∷ pool_items t.pool

abbrev pub stats_body : RegistryStatsSnapshot → List Item
stats_body r =
    integer 8 r.node_count
    ∷ integer 8 r.topic_count
    ∷ integer 8 r.publisher_count
    ∷ integer 8 r.subscriber_count
    ∷ integer 8 r.heartbeat_received
    ∷ integer 8 r.suspected_count
    ∷ integer 8 r.dead_node_count
    ∷ []

abbrev pub is_success : ErrorCode → Bool
is_success ok = true
is_success _ = false

abbrev pub with_state : Server → RegistryState → Server
with_state s state = record s { state = state }

-- The answer to Heartbeat: a node that is known gets the events that wait for it, once.
unfoldable pub serve_heartbeat : Server → ℕ → ℕ → ℕ → ℕ → ℕ → ℕ → Server
serve_heartbeat s fd connection request_id i session now =
    let (state, (error, liveness)) = Nodes.heartbeat s.state connection i session now in
    let events = if is_success error then events_of s.peer_events i else [] in
    let left = if is_success error then erase i s.peer_events else s.peer_events in
    queue_response (record s { state = state; peer_events = left }) fd request_id error
      (integer 2 (liveness_number liveness) ∷ counted event_items events)

-- ResolveEndpoint waits while there is no subscriber.
unfoldable pub serve_resolve : Server → ℕ → ℕ → ℕ → ℕ → ℕ → Option Server
serve_resolve s fd connection request_id i e = and_then (resolve s.state connection i e) (λ d.
    some (
      if is_topic_not_found d.error
      then record s {
        pending =
            insert e
              (record {
                fd = fd;
                connection_id = connection;
                node_id = i;
                publisher_endpoint_id = e;
                request_id = request_id;
              })
              s.pending;
      }
      else queue_response s fd request_id d.error (discovery_body d)))

-- The cases of the switch, on a request that was read.
unfoldable pub serve : Server → ℕ → ℕ → ℕ → ℕ → Request → Option Server
serve s fd connection request_id now (register_node name) =
    let (state, r) = Nodes.register_node s.state connection name now in
    some (queue_response (with_state s state) fd request_id r.error (registration_items r))
serve s fd connection request_id now (unregister_node i) =
    and_then (Endpoints.unregister_node s.state connection i) (λ (state, error).
      let s' = with_state s state in
      let left = if is_success error then erase i s'.peer_events else s'.peer_events in
      some (
        queue_response (cleanup_pending (record s' { peer_events = left })) fd request_id error []))
serve s fd connection request_id now (advertise_topic i r pool) =
    if ltb u32_max r.max_message_size
    then some (queue_response s fd request_id invalid_argument [])
    else and_then (advertise s.state connection i r pool) (λ (state, result).
      some (queue_response (with_state s state) fd request_id result.error (endpoint_body result)))
serve s fd connection request_id now (unadvertise_topic i e) =
    and_then (unadvertise s.state connection i e) (λ (state, error). some (
      queue_response (record s { state = state; pending = erase e s.pending }) fd request_id error
        []))
serve s fd connection request_id now (subscribe_topic i r path queue) =
    if ltb u32_max r.max_message_size
    then some (queue_response s fd request_id invalid_argument [])
    else and_then (subscribe s.state connection i r path queue) (λ (state, result).
      let s' =
        queue_response (with_state s state) fd request_id result.error (endpoint_body result) in
      if is_success result.error then complete_pending s' else some s')
serve s fd connection request_id now (unsubscribe_topic i e) =
    and_then (unsubscribe s.state connection i e)
      (λ (state, error). some (queue_response (with_state s state) fd request_id error []))
serve s fd connection request_id now (resolve_endpoint i e) =
    serve_resolve s fd connection request_id i e
serve s fd connection request_id now list_nodes =
    some (queue_response s fd request_id ok (counted node_items (Queries.list_nodes s.state)))
serve s fd connection request_id now list_topics =
    some (queue_response s fd request_id ok (counted topic_items (Queries.list_topics s.state)))
serve s fd connection request_id now (query_topic name) =
    and_then (Queries.query_topic s.state name) (λ o. some (elim o [
      | none ↦ queue_response s fd request_id topic_not_found []
      | some topic ↦ queue_response s fd request_id ok (topic_body topic)
    ]))
serve s fd connection request_id now (attach_heartbeat i session) =
    let (state, error) = Nodes.attach_heartbeat s.state connection i session in
    some (queue_response (with_state s state) fd request_id error [])
serve s fd connection request_id now (heartbeat i session) =
    some (serve_heartbeat s fd connection request_id i session now)
serve s fd connection request_id now query_stats =
    some (queue_response s fd request_id ok (stats_body (stats_snapshot s.state)))

unfoldable pub dispatch : Server → ℕ → ℕ → ℕ → ℕ → ℕ → List ℕ → Option Server
dispatch s fd connection request_id now opcode payload =
    if is_known_request_opcode opcode
    then elim (read_request opcode payload) [
      | none ↦ some (queue_response s fd request_id invalid_control_message [])
      | some q ↦ serve s fd connection request_id now q
    ]
    else some (queue_response s fd request_id unknown_opcode [])
