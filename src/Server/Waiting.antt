-- ===== src/Server/Waiting.antt =====
-- The discoveries that wait, and the events that wait.
use cpp_robot_middleware.Prelude.{
  ℕ, suc, ◌≡◌, ◌≤◌, refl, ◌∙◌, Bool, false, List, [], ◌∷◌, Option, none, some, length, true,
  if◌then◌else◌, ◌==◌, Bool-cases, Option-cases, ◌&&◌, ◌++◌, append-nil, append_assoc, inl, inr,
  arith, select, length-append,
}
use cpp_robot_middleware.Map.{
  OrderedMap, lookup, insert, name_key, lookup-insert, lookup-erase, id_key,
}
use cpp_robot_middleware.Registry.{RegistryState, is_empty, is_some}
use cpp_robot_middleware.ErrorCode.{ok, topic_not_found}
use cpp_robot_middleware.Registry.Nodes.{owned_node}
use cpp_robot_middleware.Registry.Discovery.{discover_all-Lists}
use cpp_robot_middleware.Registry.Unadvertise.{publisher-topic}
use cpp_robot_middleware.Registry.Cleanup.{PeerEventRecord, DeadNodeCleanup}
use cpp_robot_middleware.Registry.Queries.{DiscoveryResult, discovery, no_discovery, resolve, node}
use cpp_robot_middleware.Registry.Invariant.{holds, IsValid}
use cpp_robot_middleware.Messages.Answers.{discovery_body}
use cpp_robot_middleware.Server.{
  Server, PendingDiscovery, Reply, queue_response, is_topic_not_found, complete_all,
  complete_pending, cleanup_pending,
}
use cpp_robot_middleware.Server.Events.{add_event, add_events, events_of, apply_cleanup}

-- The publisher that asked is that of a node of the connection, and its topic has no subscriber.
abbrev pub is_quiet : RegistryState → (ℕ × PendingDiscovery) → Bool
is_quiet state (e, request) =
    holds (lookup request.node_id state.nodes) (λ r. r.control_connection == request.connection_id)
    && holds (lookup request.publisher_endpoint_id state.publishers) (λ p.
      p.node_id == request.node_id
      && holds (lookup p.topic_id state.topics) (λ topic. is_empty topic.subscriber_endpoints))

owned_node-holds :
    (s : RegistryState) (connection i : ℕ)
    → holds (lookup i s.nodes) (λ r. r.control_connection == connection)
      ≡ is_some (owned_node s connection i)
unfolding owned_node
owned_node-holds s connection i = elim (Option-cases (lookup i s.nodes)) [
  | inl absent ↦ rw (absent, owned_node) refl
  | inr (r, there) ↦ rw (there, owned_node) (ground arith)
]

-- `resolve` says TOPIC_NOT_FOUND exactly when the topic has no subscriber.
resolve-is_quiet :
    (s : RegistryState) (e : ℕ) (request : PendingDiscovery)
    → IsValid s
    → (d : DiscoveryResult) × (resolve s request.connection_id request.node_id
          request.publisher_endpoint_id
        ≡ some d)
      × (is_topic_not_found d.error ≡ is_quiet s (e, request))
unfolding resolve
resolve-is_quiet s e request v =
    let i = request.node_id in
    let x = request.publisher_endpoint_id in
    let known = owned_node-holds s request.connection_id i in
    elim (Option-cases (owned_node s request.connection_id i)) [
      | inl stranger ↦ (no_discovery, rw (stranger, resolve) refl, rw (known, stranger) refl)
      | inr (r, owned) ↦ elim (Option-cases (lookup x s.publishers)) [
        | inl absent ↦
            (no_discovery, rw (owned, resolve, absent) refl, rw (known, owned, absent) refl)
        | inr (p, entered) ↦ elim (Bool-cases (p.node_id == i)) [
          | inr other ↦ (no_discovery, ground arith, rw (known, owned, entered, other) refl)
          | inl mine ↦
              (let (topic, on) = publisher-topic s v.linked x p entered in
                let (found, runs, same) =
                  discover_all-Lists s.subscribers topic.subscriber_endpoints
                    (λ y h. (let law = v.linked.topic_subscribers p.topic_id y in ground arith)) in
                elim (Bool-cases (is_empty topic.subscriber_endpoints)) [
                  | inl alone ↦ (
                    discovery topic_not_found topic [],
                    ground arith,
                    rw (known, owned, entered, mine, on, alone) refl,
                  )
                  | inr heard ↦ (
                    discovery ok topic found,
                    ground arith,
                    rw (known, owned, entered, mine, on, heard) refl,
                  )
                ])
        ]
      ]
    ]

-- The answer to a discovery, if its client is still there.
abbrev pub reply_to : OrderedMap ℕ ℕ → PendingDiscovery → Option DiscoveryResult → List Reply
reply_to clients request none = []
reply_to clients request (some d) =
    if is_some (lookup request.fd clients)
    then record {
      fd = request.fd;
      request_id = request.request_id;
      error = d.error;
      body = discovery_body d;
    }
      ∷ []
    else []

-- The answers to the discoveries that need not wait, in their order.
abbrev pub answers : Server → OrderedMap ℕ PendingDiscovery → List Reply
answers s [] = []
answers s ((e, request) ∷ pending) =
    (if is_quiet s.state (e, request)
      then []
      else reply_to s.clients request
          (resolve s.state request.connection_id request.node_id request.publisher_endpoint_id))
    ++ answers s pending

-- A server that differs in what it has replied.
abbrev replied : Server → List Reply → Server
replied s rs = record s { replies = rs }

queue_response-replied :
    (s : Server) (rs : List Reply) (request : PendingDiscovery) (d : DiscoveryResult)
    → queue_response (replied s rs) request.fd request.request_id d.error (discovery_body d)
      ≡ replied s (rs ++ reply_to s.clients request (some d))
unfolding queue_response
queue_response-replied s rs request d = elim (Bool-cases (is_some (lookup request.fd s.clients))) [
  | inl here ↦ rw here refl
  | inr gone ↦ rw (gone, append-nil rs) refl
]

module _ (pending : OrderedMap ℕ PendingDiscovery) (s s' : Server) (e : ℕ)
    (request : PendingDiscovery) (d : DiscoveryResult) (kept : OrderedMap ℕ PendingDiscovery)
    (runs : resolve s.state request.connection_id request.node_id request.publisher_endpoint_id
      ≡ some d) where
  goes_on :
      is_topic_not_found d.error ≡ true
      → complete_all pending s ≡ some (s', kept)
      → complete_all ((e, request) ∷ pending) s ≡ some (s', (e, request) ∷ kept)
  unfolding complete_all
  goes_on quiet rest = ground arith

  is_told :
      is_topic_not_found d.error ≡ false
      → complete_all pending
          (queue_response s request.fd request.request_id d.error (discovery_body d))
        ≡ some (s', kept)
      → complete_all ((e, request) ∷ pending) s ≡ some (s', kept)
  unfolding complete_all
  is_told told rest = ground arith

complete_all-answers :
    (pending : OrderedMap ℕ PendingDiscovery) (s : Server) (rs : List Reply)
    → IsValid s.state
    → complete_all pending (replied s rs)
      ≡ some (replied s (rs ++ answers s pending), select (is_quiet s.state) pending)
unfolding complete_all
complete_all-answers [] s rs v = rw (append-nil rs) refl
complete_all-answers ((e, request) ∷ pending) s rs v =
    let (d, runs, same) = resolve-is_quiet s.state e request v in
    elim (Bool-cases (is_quiet s.state (e, request))) [
      | inl quiet ↦
          goes_on pending (replied s rs) (replied s (rs ++ answers s pending)) e request d
            (select (is_quiet s.state) pending) runs (same ∙ quiet)
            (complete_all-answers pending s rs v)
          ∙ rw quiet refl
      | inr told ↦
          (let more = rs ++ reply_to s.clients request (some d) in
            is_told pending (replied s rs) (replied s (more ++ answers s pending)) e request d
              (select (is_quiet s.state) pending) runs (same ∙ told)
              (rw (queue_response-replied s rs request d) (complete_all-answers pending s more v))
            ∙ rw
                (
                  told,
                  runs,
                  append_assoc rs (reply_to s.clients request (some d)) (answers s pending),
                )
                refl)
    ]

-- On a valid state `completePending` does not throw. Exactly the discoveries whose topic has no
-- subscriber, for a publisher that still is that of a node of the connection, go on waiting, in their order. Every other one
-- whose client is there is answered once, in the same order, with what `resolve` finds; the rest of the server is as it was.
pub complete_pending_lem :
    (s : Server)
    → IsValid s.state
    → complete_pending s
      ≡ some (record s {
        pending = select (is_quiet s.state) s.pending;
        replies = s.replies ++ answers s s.pending;
      })
unfolding complete_pending
complete_pending_lem s v = rw (complete_all-answers s.pending s s.replies v) refl

-- No more than 1024 events wait for a node.
abbrev pub IsBounded : OrderedMap ℕ (List PeerEventRecord) → Type 0
IsBounded m = (i : ℕ) → length (events_of m i) ≤ 1024

add_event-le :
    (events : List PeerEventRecord) (event : PeerEventRecord)
    → length events ≤ 1024
    → length (add_event events event) ≤ 1024
unfolding add_event
add_event-le [] event h = ground arith
add_event-le (x ∷ events) event h = elim (Bool-cases (suc (length events) == 1024)) [
  | inl full ↦ rw full (ground (arith, length-append events (event ∷ [])))
  | inr room ↦ rw room (ground (arith, length-append events (event ∷ [])))
]

events_of-insert :
    (m : OrderedMap ℕ (List PeerEventRecord)) (k : ℕ) (events : List PeerEventRecord) (i : ℕ)
    → events_of (insert k events m) i ≡ (if i == k then events else events_of m i)
events_of-insert m k events i = ground (arith, lookup-insert k events m i)

add_events-IsBounded :
    (state : RegistryState) (events : List PeerEventRecord)
    (m : OrderedMap ℕ (List PeerEventRecord))
    → IsBounded m
    → IsBounded (add_events state events m)
unfolding add_events
add_events-IsBounded state [] m h = h
add_events-IsBounded state (event ∷ events) m h =
    elim (Bool-cases (is_some (node state event.target_node_id))) [
      | inr gone ↦ rw gone (add_events-IsBounded state events m h)
      | inl there ↦ rw there (
          add_events-IsBounded state events
            (insert event.target_node_id (add_event (events_of m event.target_node_id) event) m)
            (λ i. ground (
              arith,
              events_of-insert m event.target_node_id
                  (add_event (events_of m event.target_node_id) event) i,
              add_event-le (events_of m event.target_node_id) event (h event.target_node_id),
              h i,
            )))
    ]

-- `applyCleanup` keeps the bound: if at most 1024 events wait for every node, then so afterwards, and
-- none wait for the dead node.
pub apply_cleanup-IsBounded :
    (s : Server) (cleanup : DeadNodeCleanup)
    → IsBounded s.peer_events
    → IsBounded (apply_cleanup s cleanup).peer_events
      × (events_of (apply_cleanup s cleanup).peer_events cleanup.node_id ≡ [])
unfolding apply_cleanup cleanup_pending
apply_cleanup-IsBounded s cleanup h =
    let after = add_events-IsBounded s.state cleanup.peer_events s.peer_events h in
    let left = add_events s.state cleanup.peer_events s.peer_events in
    (
      λ i. ground (arith, lookup-erase cleanup.node_id left i, after i),
      ground (arith, lookup-erase cleanup.node_id left cleanup.node_id),
    )
