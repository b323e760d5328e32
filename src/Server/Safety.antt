-- ===== src/Server/Safety.antt =====
-- The server keeps the registry's state valid, whatever a client sends.
use cpp_robot_middleware.Prelude.{
  ℕ, ◌+◌, ◌≡◌, refl, ◌∙◌, Bool, true, false, List, [], ◌∷◌, Option, none, some, if◌then◌else◌, ◌==◌,
  ltb, u32_max, u64_max, Bool-cases, Option-cases, inl, inr, arith,
}
use cpp_robot_middleware.ErrorCode.{
  ErrorCode, ok, invalid_argument, topic_not_found, invalid_control_message, unknown_opcode,
}
use cpp_robot_middleware.Map.{OrderedMap, lookup, insert, erase, id_key, name_key}
use cpp_robot_middleware.Control.{is_known_request_opcode}
use cpp_robot_middleware.Registry.{RegistryState, TopicRecord, is_some}
use cpp_robot_middleware.Registry.Nodes.{owned_node}
use cpp_robot_middleware.Registry.Nodes as Nodes
use cpp_robot_middleware.Registry.Queries.{DiscoveryResult, no_discovery, resolve}
use cpp_robot_middleware.Registry.Queries as Queries
use cpp_robot_middleware.Registry.Invariant.{IsValid, Within}
use cpp_robot_middleware.Registry.Advertise.{Within-suc, advertise_total, subscribe_total}
use cpp_robot_middleware.Registry.Members.{register_total}
use cpp_robot_middleware.Registry.Steps.{
  attach_total, heartbeat_total, unadvertise_total, unsubscribe_total, unregister_total,
}
use cpp_robot_middleware.Registry.Discovery.{resolve_lem, query_topic_lem}
use cpp_robot_middleware.Messages.Requests.{
  Request, register_node, unregister_node, advertise_topic, unadvertise_topic, subscribe_topic,
  unsubscribe_topic, resolve_endpoint, list_nodes, list_topics, query_topic, attach_heartbeat,
  heartbeat, query_stats, read_request,
}
use cpp_robot_middleware.Messages.Answers.{discovery_body, registration_items, endpoint_body}
use cpp_robot_middleware.Messages.{Item, integer}
use cpp_robot_middleware.Server.{
  Server, PendingDiscovery, queue_response, is_topic_not_found, complete_all, complete_pending,
  cleanup_pending,
}
use cpp_robot_middleware.Server.Dispatch.{
  serve_heartbeat, serve_resolve, serve, dispatch, is_success, counted, node_items, topic_items,
  topic_body, stats_body, liveness_number, event_items,
}
use cpp_robot_middleware.Server.Events.{events_of}

pub queue_response-state :
    (s : Server) (fd request_id : ℕ) (error : ErrorCode) (body : List Item)
    → (queue_response s fd request_id error body).state ≡ s.state
unfolding queue_response
queue_response-state s fd request_id error body =
    elim (Bool-cases (is_some (lookup fd s.clients))) [
      | inl here ↦ rw here refl
      | inr gone ↦ rw gone refl
    ]

-- `resolve` does not throw.
pub resolve-total :
    (s : RegistryState) (connection i e : ℕ)
    → IsValid s
    → (d : DiscoveryResult) × (resolve s connection i e ≡ some d)
unfolding resolve
resolve-total s connection i e v = elim (Option-cases (owned_node s connection i)) [
  | inl stranger ↦ (no_discovery, rw (stranger, resolve) refl)
  | inr (node, owned) ↦ elim (Option-cases (lookup e s.publishers)) [
    | inl absent ↦ (no_discovery, rw (owned, resolve, absent) refl)
    | inr (p, entered) ↦ elim (Bool-cases (p.node_id == i)) [
      | inl mine ↦
          (let out = resolve_lem s connection i e node p v owned entered (ground arith) in
            (out.0, out.2))
      | inr other ↦ (no_discovery, ground arith)
    ]
  ]
]

complete_all-total :
    (pending : OrderedMap ℕ PendingDiscovery) (s : Server)
    → IsValid s.state
    → (s' : Server) × (kept : OrderedMap ℕ PendingDiscovery) × (complete_all pending s
        ≡ some (s', kept))
      × (s'.state ≡ s.state)
unfolding complete_all
complete_all-total [] s v = (s, [], refl, refl)
complete_all-total ((e, request) ∷ pending) s v =
    let (d, runs) =
      resolve-total s.state request.connection_id request.node_id request.publisher_endpoint_id v in
    elim (Bool-cases (is_topic_not_found d.error)) [
      | inl waits ↦
          (let (s', kept, rest, same) = complete_all-total pending s v in
            (s', (e, request) ∷ kept, ground arith, same))
      | inr answered ↦
          (let next = queue_response s request.fd request.request_id d.error (discovery_body d) in
            let unmoved =
              queue_response-state s request.fd request.request_id d.error (discovery_body d) in
            let (s', kept, rest, same) = complete_all-total pending next (rw unmoved v) in
            (s', kept, ground arith, same ∙ unmoved))
    ]

complete_pending-total :
    (s : Server)
    → IsValid s.state
    → (s' : Server) × (complete_pending s ≡ some s') × (s'.state ≡ s.state)
unfolding complete_pending
complete_pending-total s v =
    let (s', kept, runs, same) = complete_all-total s.pending s v in
    (record s' { pending = kept }, rw runs refl, same)

cleanup_pending-state : (s : Server) → (cleanup_pending s).state ≡ s.state
unfolding cleanup_pending
cleanup_pending-state s = refl

some_inj : {A : Type 0} {a b : A} → some a ≡ some b → a ≡ b
some_inj h = cc

module _ (n : ℕ) (s : Server) (v : IsValid s.state) (w : Within n s.state)
    (room : ltb n u64_max ≡ true) where
  -- The server goes on with a valid state that has given out at most one number more.
  abbrev GoesOn : Option Server → Type 0
  GoesOn out = (s' : Server) × (out ≡ some s') × IsValid s'.state × Within (n + 1) s'.state

  -- The state is that of a server that goes on.
  on_state :
      (out : Option Server) (s' : Server) (u : RegistryState)
      → out ≡ some s'
      → s'.state ≡ u
      → IsValid u
      → Within (n + 1) u
      → GoesOn out
  on_state out s' u runs same valid within = (s', runs, rw same valid, rw same within)

  answered :
      (s₁ : Server) (fd request_id : ℕ) (error : ErrorCode) (body : List Item)
      → IsValid s₁.state
      → Within (n + 1) s₁.state
      → GoesOn (some (queue_response s₁ fd request_id error body))
  answered s₁ fd request_id error body valid within =
      on_state (some (queue_response s₁ fd request_id error body))
        (queue_response s₁ fd request_id error body) s₁.state refl
        (queue_response-state s₁ fd request_id error body) valid within

  still :
      (fd request_id : ℕ) (error : ErrorCode) (body : List Item)
      → GoesOn (some (queue_response s fd request_id error body))
  still fd request_id error body =
      answered s fd request_id error body v (Within-suc n s.state v w room)

  serve_resolve-total :
      (fd connection request_id i e : ℕ) → GoesOn (serve_resolve s fd connection request_id i e)
  unfolding serve_resolve
  serve_resolve-total fd connection request_id i e =
      let (d, runs) = resolve-total s.state connection i e v in
      elim (Bool-cases (is_topic_not_found d.error)) [
        | inl waits ↦
            rw (runs, waits)
              (
                record s {
                  pending =
                      insert e
                        (record {
                          fd = fd;
                          connection_id = connection;
                          node_id = i;
                          publisher_endpoint_id = e;
                          request_id = request_id;
                        })
                        s.pending;
                },
                refl,
                v,
                Within-suc n s.state v w room,
              )
        | inr told ↦ rw (runs, told) (still fd request_id d.error (discovery_body d))
      ]

  -- A new subscriber may complete discoveries that wait.
  subscribed :
      (success : Bool) (s₁ : Server) (fd request_id : ℕ) (error : ErrorCode) (body : List Item)
      → IsValid s₁.state
      → Within (n + 1) s₁.state
      → GoesOn (
          let s' = queue_response s₁ fd request_id error body in
          if success then complete_pending s' else some s')
  subscribed false s₁ fd request_id error body valid within =
      answered s₁ fd request_id error body valid within
  subscribed true s₁ fd request_id error body valid within =
      let told = queue_response-state s₁ fd request_id error body in
      let (s', runs, same) =
        complete_pending-total (queue_response s₁ fd request_id error body) (rw told valid) in
      on_state (complete_pending (queue_response s₁ fd request_id error body)) s' s₁.state runs
        (same ∙ told) valid within

  queried :
      (fd request_id : ℕ) (o : Option TopicRecord)
      → GoesOn (
          some (elim o [
            | none ↦ queue_response s fd request_id topic_not_found []
            | some topic ↦ queue_response s fd request_id ok (topic_body topic)
          ]))
  queried fd request_id none = still fd request_id topic_not_found []
  queried fd request_id (some topic) = still fd request_id ok (topic_body topic)

  serve_heartbeat-total :
      (fd connection request_id i session now : ℕ)
      → GoesOn (some (serve_heartbeat s fd connection request_id i session now))
  unfolding serve_heartbeat
  serve_heartbeat-total fd connection request_id i session now =
      let (u, a, runs, valid, within) =
        heartbeat_total n s.state v w room connection i session now in
      let same : Nodes.heartbeat s.state connection i session now ≡ (u, a) = some_inj runs in
      rw same (
        answered
          (record s {
            state = u;
            peer_events = if is_success a.0 then erase i s.peer_events else s.peer_events;
          })
          fd request_id a.0
          (integer 2 (liveness_number a.1)
            ∷ counted event_items (if is_success a.0 then events_of s.peer_events i else []))
          valid within)

  serve-total :
      (fd connection request_id now : ℕ) (q : Request)
      → GoesOn (serve s fd connection request_id now q)
  unfolding serve
  serve-total fd connection request_id now (register_node name) =
      let (u, r, runs, valid, within) = register_total n s.state v w room connection name now in
      let same : Nodes.register_node s.state connection name now ≡ (u, r) = some_inj runs in
      rw same (
        answered (record s { state = u }) fd request_id r.error (registration_items r) valid within)
  serve-total fd connection request_id now (unregister_node i) =
      let (u, error, runs, valid, within) = unregister_total n s.state v w room connection i in
      (let s₁ = record s {
        state = u;
        peer_events = if is_success error then erase i s.peer_events else s.peer_events;
      } in
        rw runs (
          answered (cleanup_pending s₁) fd request_id error [] (rw (cleanup_pending-state s₁) valid)
            (rw (cleanup_pending-state s₁) within)))
  serve-total fd connection request_id now (advertise_topic i r pool) =
      elim (Bool-cases (ltb u32_max r.max_message_size)) [
        | inl large ↦ rw large (still fd request_id invalid_argument [])
        | inr small ↦
            (let (u, result, runs, valid, within) =
                advertise_total n s.state v w room connection i r pool in
              rw (small, runs)
                (answered (record s { state = u }) fd request_id result.error (endpoint_body result)
                  valid within))
      ]
  serve-total fd connection request_id now (unadvertise_topic i e) =
      let (u, error, runs, valid, within) = unadvertise_total n s.state v w room connection i e in
      rw runs (
        answered (record s { state = u; pending = erase e s.pending }) fd request_id error [] valid
          within)
  serve-total fd connection request_id now (subscribe_topic i r path queue) =
      elim (Bool-cases (ltb u32_max r.max_message_size)) [
        | inl large ↦ rw large (still fd request_id invalid_argument [])
        | inr small ↦
            (let (u, result, runs, valid, within) =
                subscribe_total n s.state v w room connection i r path queue in
              rw (small, runs)
                (subscribed (is_success result.error) (record s { state = u }) fd request_id
                  result.error (endpoint_body result) valid within))
      ]
  serve-total fd connection request_id now (unsubscribe_topic i e) =
      let (u, error, runs, valid, within) = unsubscribe_total n s.state v w room connection i e in
      rw runs (answered (record s { state = u }) fd request_id error [] valid within)
  serve-total fd connection request_id now (resolve_endpoint i e) =
      serve_resolve-total fd connection request_id i e
  serve-total fd connection request_id now list_nodes =
      still fd request_id ok (counted node_items (Queries.list_nodes s.state))
  serve-total fd connection request_id now list_topics =
      still fd request_id ok (counted topic_items (Queries.list_topics s.state))
  serve-total fd connection request_id now (query_topic name) =
      let out = query_topic_lem s.state name v in rw (out.1) (queried fd request_id out.0)
  serve-total fd connection request_id now (attach_heartbeat i session) =
      let (u, error, runs, valid, within) = attach_total n s.state v w room connection i session in
      let same : Nodes.attach_heartbeat s.state connection i session ≡ (u, error) = some_inj runs in
      rw same (answered (record s { state = u }) fd request_id error [] valid within)
  serve-total fd connection request_id now (heartbeat i session) =
      serve_heartbeat-total fd connection request_id i session now
  serve-total fd connection request_id now query_stats =
      still fd request_id ok (stats_body (Queries.stats_snapshot s.state))

  -- Whatever bytes a client sends as the payload of a frame, under whatever opcode: if the registry's
  -- state is valid and its next numbers are at most n, which is below 2^64 - 1, the dispatch does not
  -- throw and leaves a valid state whose next numbers are at most n + 1.
  pub dispatch-total :
      (fd connection request_id now opcode : ℕ) (payload : List ℕ)
      → (s' : Server) × (dispatch s fd connection request_id now opcode payload ≡ some s')
        × IsValid s'.state
        × Within (n + 1) s'.state
  unfolding dispatch
  dispatch-total fd connection request_id now opcode payload =
      elim (Bool-cases (is_known_request_opcode opcode)) [
        | inr unknown ↦ rw unknown (still fd request_id unknown_opcode [])
        | inl known ↦ elim (Option-cases (read_request opcode payload)) [
          | inl malformed ↦ rw (known, malformed) (still fd request_id invalid_control_message [])
          | inr (q, reads) ↦ rw (known, reads) (serve-total fd connection request_id now q)
        ]
      ]
