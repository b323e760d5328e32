-- ===== src/Server/Departures.antt =====
-- A client that goes, `removeClient`, and the nodes that go with it: `closeCleanupConnections` and
-- `expireDeadNodes`. Taking a descriptor out of epoll is not shown.
use cpp_robot_middleware.Prelude.{
  ℕ, ◌≡◌, refl, ◌∙◌, Bool, true, false, ◌&&◌, List, [], ◌∷◌, Option, none, some, and_then,
  if◌then◌else◌, ◌==◌, Bool-cases, Option-cases, inl, inr, arith,
}
use cpp_robot_middleware.Map.{OrderedMap, lookup, erase, lookup-erase, id_key}
use cpp_robot_middleware.Registry.{RegistryState, is_some}
use cpp_robot_middleware.Registry.Cleanup.{DeadNodeCleanup, disconnect_connection}
use cpp_robot_middleware.Registry.Liveness.{evaluate_liveness}
use cpp_robot_middleware.Registry.Invariant.{IsValid}
use cpp_robot_middleware.Registry.Partings.{disconnect_connection_lem}
use cpp_robot_middleware.Registry.Watch.{outlived, evaluate_liveness_lem}
use cpp_robot_middleware.Server.{Server, PendingDiscovery, still_published, cleanup_pending}
use cpp_robot_middleware.Server.Events.{apply_cleanup}

unfoldable pub fd_for_connection : OrderedMap ℕ ℕ → ℕ → Option ℕ
fd_for_connection [] connection = none
fd_for_connection ((fd, c) ∷ clients) connection =
    if c == connection then some fd else fd_for_connection clients connection

-- The loop of `removeClient` over the discoveries that wait.
unfoldable pub without_fd : ℕ → OrderedMap ℕ PendingDiscovery → OrderedMap ℕ PendingDiscovery
without_fd fd [] = []
without_fd fd ((e, request) ∷ pending) =
    let rest = without_fd fd pending in if request.fd == fd then rest else (e, request) ∷ rest

-- `removeClient(fd, false)`
unfoldable pub drop_client : Server → ℕ → Server
drop_client s fd =
    if is_some (lookup fd s.clients)
    then record s { pending = without_fd fd s.pending; clients = erase fd s.clients }
    else s

-- `fd != except_fd`, where no descriptor is -1.
abbrev pub is_excepted : Option ℕ → ℕ → Bool
is_excepted none fd = false
is_excepted (some except) fd = fd == except

-- One turn of the loop of `closeCleanupConnections`.
unfoldable pub close_connection : Server → Option ℕ → ℕ → Server
close_connection s except connection =
    if connection == 0 then s else elim (fd_for_connection s.clients connection) [
      | none ↦ s
      | some fd ↦ if is_excepted except fd then s else drop_client s fd
    ]

unfoldable pub close_cleanup_connections : Server → Option ℕ → DeadNodeCleanup → Server
close_cleanup_connections s except cleanup =
    close_connection (close_connection s except cleanup.control_connection) except
      cleanup.heartbeat_connection

-- The loop over the cleanups in `removeClient` and in `expireDeadNodes`.
unfoldable pub settle_all : Server → Option ℕ → List DeadNodeCleanup → Server
settle_all s except [] = s
settle_all s except (cleanup ∷ cleanups) =
    settle_all (close_cleanup_connections (apply_cleanup s cleanup) except cleanup) except cleanups

-- `removeClient(fd)`
unfoldable pub remove_client : Server → ℕ → Option Server
remove_client s fd = elim (lookup fd s.clients) [
  | none ↦ some s
  | some connection ↦
      let s' = drop_client s fd in
      and_then (disconnect_connection s'.state connection)
        (λ (state, cleanups). some (settle_all (record s' { state = state }) (some fd) cleanups))
]

unfoldable pub expire_dead_nodes : Server → ℕ → Option Server
expire_dead_nodes s now =
    and_then (evaluate_liveness s.state now)
      (λ (state, update). some (settle_all (record s { state = state }) none update.dead_nodes))

-- Each discovery that waits belongs to a client that is there.
abbrev pub all_open : OrderedMap ℕ ℕ → OrderedMap ℕ PendingDiscovery → Bool
all_open clients [] = true
all_open clients ((e, request) ∷ pending) =
    is_some (lookup request.fd clients) && all_open clients pending

without_fd-open :
    (fd : ℕ) (clients : OrderedMap ℕ ℕ) (pending : OrderedMap ℕ PendingDiscovery)
    → all_open clients pending ≡ true
    → all_open (erase fd clients) (without_fd fd pending) ≡ true
unfolding without_fd
without_fd-open fd clients [] h = refl
without_fd-open fd clients ((e, request) ∷ pending) h =
    let rest = without_fd-open fd clients pending in
    ground (arith, lookup-erase fd clients request.fd)

still_published-open :
    (state : RegistryState) (clients : OrderedMap ℕ ℕ) (pending : OrderedMap ℕ PendingDiscovery)
    → all_open clients pending ≡ true
    → all_open clients (still_published state pending) ≡ true
unfolding still_published
still_published-open state clients [] h = refl
still_published-open state clients ((e, request) ∷ pending) h =
    let rest = still_published-open state clients pending in ground arith

-- What the departures keep: the registry's state, no orphaned discovery, and absence of a descriptor.
record Departed (s s' : Server) : Type 0 where
  state : s'.state ≡ s.state
  opened : all_open s.clients s.pending ≡ true → all_open s'.clients s'.pending ≡ true
  gone : (fd : ℕ) → lookup fd s.clients ≡ none → lookup fd s'.clients ≡ none

stays : (s : Server) → Departed s s
stays s = record { state = refl; opened = λ h. h; gone = λ fd h. h }

then-Departed : (a b c : Server) → Departed a b → Departed b c → Departed a c
then-Departed a b c x y = record {
  state = y.state ∙ x.state;
  opened = λ h. y.opened (x.opened h);
  gone = λ fd h. y.gone fd (x.gone fd h);
}

drop_client-Departed : (s : Server) (fd : ℕ) → Departed s (drop_client s fd)
unfolding drop_client
drop_client-Departed s fd = elim (Bool-cases (is_some (lookup fd s.clients))) [
  | inl here ↦ rw here (record {
    state = refl;
    opened = without_fd-open fd s.clients s.pending;
    gone = λ j h. ground (arith, lookup-erase fd s.clients j);
  })
  | inr absent ↦ rw absent (stays s)
]

drop_client-gone : (s : Server) (fd : ℕ) → lookup fd (drop_client s fd).clients ≡ none
unfolding drop_client
drop_client-gone s fd = elim (Option-cases (lookup fd s.clients)) [
  | inl absent ↦ rw absent absent
  | inr (c, here) ↦ rw here (ground (arith, lookup-erase fd s.clients fd))
]

close_connection-Departed :
    (s : Server) (except : Option ℕ) (connection : ℕ)
    → Departed s (close_connection s except connection)
unfolding close_connection
close_connection-Departed s except connection = elim (Bool-cases (connection == 0)) [
  | inl none_there ↦ rw none_there (stays s)
  | inr there ↦ rw there (elim (Option-cases (fd_for_connection s.clients connection)) [
    | inl absent ↦ rw absent (stays s)
    | inr (fd, found) ↦ rw found (elim (Bool-cases (is_excepted except fd)) [
      | inl same ↦ rw same (stays s)
      | inr other ↦ rw other (drop_client-Departed s fd)
    ])
  ])
]

apply_cleanup-Departed : (s : Server) (c : DeadNodeCleanup) → Departed s (apply_cleanup s c)
unfolding apply_cleanup cleanup_pending
apply_cleanup-Departed s c = record {
  state = refl;
  opened = still_published-open s.state s.clients s.pending;
  gone = λ fd h. h;
}

settle_all-Departed :
    (s : Server) (except : Option ℕ) (cleanups : List DeadNodeCleanup)
    → Departed s (settle_all s except cleanups)
unfolding settle_all close_cleanup_connections
settle_all-Departed s except [] = stays s
settle_all-Departed s except (c ∷ cleanups) =
    let a = apply_cleanup s c in
    let b = close_connection a except c.control_connection in
    let d = close_connection b except c.heartbeat_connection in
    then-Departed s a (settle_all d except cleanups) (apply_cleanup-Departed s c) (
      then-Departed a b (settle_all d except cleanups)
        (close_connection-Departed a except c.control_connection)
        (then-Departed b d (settle_all d except cleanups)
          (close_connection-Departed b except c.heartbeat_connection)
          (settle_all-Departed d except cleanups)))

-- On a valid state `removeClient` does not throw and leaves a valid state. The descriptor is no
-- client's any more, and when before every discovery that waits was that of a client, so it is
-- after: no discovery is left for a connection that was closed, the removed client's or a dead
-- node's.
pub remove_client_lem :
    (s : Server) (fd : ℕ)
    → IsValid s.state
    → (s' : Server) × (remove_client s fd ≡ some s')
      × IsValid s'.state
      × (lookup fd s'.clients ≡ none)
      × (all_open s.clients s.pending ≡ true → all_open s'.clients s'.pending ≡ true)
unfolding remove_client
remove_client_lem s fd v = elim (Option-cases (lookup fd s.clients)) [
  | inl absent ↦ (s, rw (absent, remove_client) refl, v, absent, λ h. h)
  | inr (connection, here) ↦
      (let s₁ = drop_client s fd in
        let x = drop_client-Departed s fd in
        let (state, all, runs, valid, rest) =
          disconnect_connection_lem s₁.state connection (rw x.state v) in
        let s₂ : Server = record s₁ { state = state } in
        let y = settle_all-Departed s₂ (some fd) all in
        (
          settle_all s₂ (some fd) all,
          rw (here, remove_client, runs) refl,
          rw y.state valid,
          y.gone fd (drop_client-gone s fd),
          λ h. y.opened (x.opened h),
        ))
]

-- On a valid state `expireDeadNodes` does not throw and leaves a valid state, in which the nodes
-- are those that outlived the timeouts. When before every discovery that waits was that of a client,
-- so it is after, although connections of dead nodes were closed.
pub expire_dead_nodes_lem :
    (s : Server) (now : ℕ)
    → IsValid s.state
    → (s' : Server) × (expire_dead_nodes s now ≡ some s')
      × IsValid s'.state
      × ((j : ℕ) → lookup j s'.state.nodes ≡ outlived s.state.liveness now (lookup j s.state.nodes))
      × (all_open s.clients s.pending ≡ true → all_open s'.clients s'.pending ≡ true)
unfolding expire_dead_nodes
expire_dead_nodes_lem s now v =
    let (state, update, runs, valid, nodes, suspected, publishers, subscribers) =
      evaluate_liveness_lem s.state v now in
    let s₁ : Server = record s { state = state } in
    let y = settle_all-Departed s₁ none update.dead_nodes in
    (
      settle_all s₁ none update.dead_nodes,
      rw runs refl,
      rw y.state valid,
      λ j. rw y.state (nodes j),
      y.opened,
    )
