-- ===== src/Registry/Steps.antt =====
-- Each call that changes the registry's state goes on: it does not throw, and it keeps the state valid.
use cpp_robot_middleware.Prelude.{
  ℕ, ◌+◌, ◌≡◌, refl, true, ◌&&◌, ◌||◌, [], Option, some, arith, ltb, ◌==◌, ◌!=◌, if◌then◌else◌,
  Bool-cases, Option-cases, inl, inr, inc64, u64_max,
}
use cpp_robot_middleware.ErrorCode.{ok, not_registered, endpoint_not_found}
use cpp_robot_middleware.Map.{insert-IsSorted, lookup, insert, id_key, name_key}
use cpp_robot_middleware.Registry.{
  RegistryState, RegistryMetrics, NodeRecord, alive, dead, is_empty,
}
use cpp_robot_middleware.Registry.Nodes.{
  owned_node, register_node, attach_heartbeat, heartbeat, detach_heartbeat_connection,
}
use cpp_robot_middleware.Registry.Endpoints.{
  advertise, subscribe, unadvertise, unsubscribe, unregister_node,
}
use cpp_robot_middleware.Registry.Cleanup.{nodes_of, disconnect_connection}
use cpp_robot_middleware.Registry.Liveness.{scan, scanned, evaluate_liveness}
use cpp_robot_middleware.Registry.Calls.{
  Call, register, unregister, attach, beat, evaluate, disconnect, detach, publish, unpublish,
  listen, unlisten, state_of, step,
}
use cpp_robot_middleware.Registry.Invariant.{IsValid, Within}
use cpp_robot_middleware.Registry.Advertise.{
  Kept, unchanged, Within-suc, advertise_total, subscribe_total,
}
use cpp_robot_middleware.Registry.Removal.{Leaves, published_by, subscribed_by}
use cpp_robot_middleware.Registry.Unadvertise.{unadvertise_lem, unsubscribe_lem}
use cpp_robot_middleware.Registry.Unregister.{unregister_node_lem}
use cpp_robot_middleware.Registry.Members.{
  members-IsValid, insert-member, scan-member, scan-IsSorted, detach-IsValid, register_total,
}
use cpp_robot_middleware.Registry.Deaths.{cleanup_all_lem}

module _ (n : ℕ) (s : RegistryState) (v : IsValid s) (w : Within n s)
    (room : ltb n u64_max ≡ true) where
  -- A state that has given out no more numbers.
  same_room :
      (s' : RegistryState)
      → s'.next_node_id ≡ s.next_node_id
      → s'.next_topic_id ≡ s.next_topic_id
      → s'.next_endpoint_id ≡ s.next_endpoint_id
      → Within (n + 1) s'
  same_room s' a b c = record {
    node_room = rw a (ground (arith, w.node_room));
    topic_room = rw b (ground (arith, w.topic_room));
    endpoint_room = rw c (ground (arith, w.endpoint_room));
  }

  replaced :
      (i : ℕ) (new old : NodeRecord) (metrics : RegistryMetrics)
      (there : lookup i s.nodes ≡ some old)
      → IsValid (record s {
        nodes =
            insert i
              (record old {
                heartbeat_connection = new.heartbeat_connection;
                liveness = new.liveness;
                last_seen = new.last_seen;
              })
              s.nodes;
        metrics = metrics;
      })
  replaced i new old metrics there =
      members-IsValid s v
        (insert i
          (record old {
            heartbeat_connection = new.heartbeat_connection;
            liveness = new.liveness;
            last_seen = new.last_seen;
          })
          s.nodes)
        metrics
        (insert-IsSorted i
          (record old {
            heartbeat_connection = new.heartbeat_connection;
            liveness = new.liveness;
            last_seen = new.last_seen;
          })
          s.nodes v.ordered)
        (insert-member i
          (record old {
            heartbeat_connection = new.heartbeat_connection;
            liveness = new.liveness;
            last_seen = new.last_seen;
          })
          old s.nodes there refl)

  pub attach_total :
      (connection i session : ℕ)
      → Kept n s v w room (some (attach_heartbeat s connection i session))
  unfolding attach_heartbeat
  attach_total connection i session = elim (Option-cases (lookup i s.nodes)) [
    | inl absent ↦ rw (absent, attach_heartbeat) (unchanged n s v w room not_registered)
    | inr (node, there) ↦
        rw (there, attach_heartbeat)
          (elim (Bool-cases (node.session_id != session || connection == 0)) [
            | inl bad ↦ rw bad (unchanged n s v w room not_registered)
            | inr good ↦
                rw good
                  (elim (Bool-cases
                    (node.heartbeat_connection != 0 && node.heartbeat_connection != connection)) [
                      | inl bad ↦ rw bad (unchanged n s v w room not_registered)
                      | inr free ↦ rw free (
                        record s {
                          nodes =
                              insert i (record node { heartbeat_connection = connection }) s.nodes;
                        },
                        ok,
                        refl,
                        replaced i (record node { heartbeat_connection = connection }) node
                            s.metrics there,
                        same_room
                            (record s {
                              nodes =
                                  insert i (record node { heartbeat_connection = connection })
                                    s.nodes;
                            })
                            refl refl refl,
                      )
                    ])
          ])
  ]

  pub heartbeat_total :
      (connection i session now : ℕ)
      → Kept n s v w room (some (heartbeat s connection i session now))
  unfolding heartbeat
  heartbeat_total connection i session now = elim (Option-cases (lookup i s.nodes)) [
    | inl absent ↦ rw (absent, heartbeat) (unchanged n s v w room (not_registered, dead))
    | inr (node, there) ↦
        rw (there, heartbeat)
          (elim (Bool-cases (node.session_id != session)) [
            | inl bad ↦ rw bad (unchanged n s v w room (not_registered, dead))
            | inr good ↦
                rw good
                  (elim (Bool-cases (
                    connection != node.control_connection
                    && connection != node.heartbeat_connection)) [
                      | inl bad ↦ rw bad (unchanged n s v w room (not_registered, node.liveness))
                      | inr free ↦ rw free (
                        record s {
                          nodes =
                              insert i (record node { last_seen = now; liveness = alive }) s.nodes;
                          metrics = record s.metrics {
                            heartbeat_received = inc64 s.metrics.heartbeat_received;
                          };
                        },
                        (ok, alive),
                        refl,
                        replaced i (record node { last_seen = now; liveness = alive }) node
                            (record s.metrics {
                              heartbeat_received = inc64 s.metrics.heartbeat_received;
                            })
                            there,
                        same_room
                            (record s {
                              nodes =
                                  insert i (record node { last_seen = now; liveness = alive })
                                    s.nodes;
                              metrics = record s.metrics {
                                heartbeat_received = inc64 s.metrics.heartbeat_received;
                              };
                            })
                            refl refl refl,
                      )
                    ])
          ])
  ]

  Leaves-Kept :
      {A : Type 0} (out : Option (RegistryState × A)) (i : ℕ) (node : NodeRecord)
      (s' : RegistryState) (a : A)
      → out ≡ some (s', a)
      → Leaves s i node s'
      → Kept n s v w room out
  Leaves-Kept out i node s' a runs l =
      (s', a, runs, l.valid, same_room s' l.kept_next_node l.kept_next_topic l.kept_next_endpoint)

  pub unadvertise_total : (connection i e : ℕ) → Kept n s v w room (unadvertise s connection i e)
  unfolding unadvertise
  unadvertise_total connection i e = elim (Option-cases (owned_node s connection i)) [
    | inl stranger ↦ rw (stranger, unadvertise) (unchanged n s v w room endpoint_not_found)
    | inr (node, owned) ↦
        (let (s', runs, l, pubs, subs) = unadvertise_lem s v connection i e owned in
          Leaves-Kept (unadvertise s connection i e) i node s'
            (if published_by s i e then ok else endpoint_not_found) runs l)
  ]

  pub unsubscribe_total : (connection i e : ℕ) → Kept n s v w room (unsubscribe s connection i e)
  unfolding unsubscribe
  unsubscribe_total connection i e = elim (Option-cases (owned_node s connection i)) [
    | inl stranger ↦ rw (stranger, unsubscribe) (unchanged n s v w room endpoint_not_found)
    | inr (node, owned) ↦
        (let (s', runs, l, pubs, subs) = unsubscribe_lem s v connection i e owned in
          Leaves-Kept (unsubscribe s connection i e) i node s'
            (if subscribed_by s i e then ok else endpoint_not_found) runs l)
  ]

  pub unregister_total : (connection i : ℕ) → Kept n s v w room (unregister_node s connection i)
  unfolding unregister_node
  unregister_total connection i = elim (Option-cases (owned_node s connection i)) [
    | inl stranger ↦ rw (stranger, unregister_node) (unchanged n s v w room not_registered)
    | inr (node, owned) ↦
        (let (s', runs, u) = unregister_node_lem s connection i v owned in
          (
            s',
            ok,
            runs,
            u.valid,
            same_room s' u.kept_next_node u.kept_next_topic u.kept_next_endpoint,
          ))
  ]

  detached_room :
      (s' : RegistryState) (connection : ℕ)
      → Within (n + 1) s'
      → Within (n + 1) (detach_heartbeat_connection s' connection)
  unfolding detach_heartbeat_connection
  detached_room s' connection x = record {
    node_room = x.node_room;
    topic_room = x.topic_room;
    endpoint_room = x.endpoint_room;
  }

  disconnect_total : (connection : ℕ) → Kept n s v w room (disconnect_connection s connection)
  unfolding disconnect_connection
  disconnect_total connection =
      let (s', all, runs, b) = cleanup_all_lem (nodes_of connection s.nodes) s [] v in
      elim (Bool-cases (is_empty all)) [
        | inl idle ↦ (
          detach_heartbeat_connection s' connection,
          all,
          ground arith,
          detach-IsValid s' connection b.valid,
          detached_room s' connection
              (same_room s' b.kept_next_node b.kept_next_topic b.kept_next_endpoint),
        )
        | inr busy ↦ (
          s',
          all,
          ground arith,
          b.valid,
          same_room s' b.kept_next_node b.kept_next_topic b.kept_next_endpoint,
        )
      ]

  evaluate_total : (now : ℕ) → Kept n s v w room (evaluate_liveness s now)
  unfolding evaluate_liveness
  evaluate_total now =
      let found = scan s.liveness now s.nodes s.metrics.suspected_count in
      let marked : IsValid (scanned s found) =
        members-IsValid s v found.nodes (scanned s found).metrics
          (scan-IsSorted s.liveness now s.nodes s.metrics.suspected_count v.ordered)
          (scan-member s.liveness now s.nodes s.metrics.suspected_count) in
      let (s', all, runs, b) = cleanup_all_lem found.dead_ids (scanned s found) [] marked in
      (
        s',
        record { suspected_nodes = found.suspected_nodes; dead_nodes = all },
        rw runs refl,
        b.valid,
        same_room s' b.kept_next_node b.kept_next_topic b.kept_next_endpoint,
      )

  -- The state after a call.
  abbrev Next : Option RegistryState → Type 0
  Next out = (s' : RegistryState) × (out ≡ some s') × IsValid s' × Within (n + 1) s'

  state_of-Kept :
      {A : Type 0} (out : Option (RegistryState × A)) → Kept n s v w room out → Next (state_of out)
  state_of-Kept out (s', a, runs, valid, within) = (s', rw runs refl, valid, within)

  pure-Kept :
      {A : Type 0} (out : RegistryState × A) → Kept n s v w room (some out) → Next (some out.0)
  pure-Kept out k = state_of-Kept (some out) k

  pub step_total : (c : Call) → Next (step s c)
  unfolding step
  step_total (register connection name now) =
      pure-Kept (register_node s connection name now)
        (register_total n s v w room connection name now)
  step_total (unregister connection i) =
      state_of-Kept (unregister_node s connection i) (unregister_total connection i)
  step_total (attach connection i session) =
      pure-Kept (attach_heartbeat s connection i session) (attach_total connection i session)
  step_total (beat connection i session now) =
      pure-Kept (heartbeat s connection i session now) (heartbeat_total connection i session now)
  step_total (evaluate now) = state_of-Kept (evaluate_liveness s now) (evaluate_total now)
  step_total (disconnect connection) =
      state_of-Kept (disconnect_connection s connection) (disconnect_total connection)
  step_total (detach connection) = (
    detach_heartbeat_connection s connection,
    refl,
    detach-IsValid s connection v,
    detached_room s connection (Within-suc n s v w room),
  )
  step_total (publish connection i r pool) =
      state_of-Kept (advertise s connection i r pool)
        (advertise_total n s v w room connection i r pool)
  step_total (unpublish connection i e) =
      state_of-Kept (unadvertise s connection i e) (unadvertise_total connection i e)
  step_total (listen connection i r path queue) =
      state_of-Kept (subscribe s connection i r path queue)
        (subscribe_total n s v w room connection i r path queue)
  step_total (unlisten connection i e) =
      state_of-Kept (unsubscribe s connection i e) (unsubscribe_total connection i e)
