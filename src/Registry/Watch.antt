-- ===== src/Registry/Watch.antt =====
-- What the liveness scan finds, and what `evaluateLiveness` does with it.
use cpp_robot_middleware.Prelude.{
  ℕ, ◌≡◌, ◌<◌, refl, ap, ◌∙◌, Bool, not, ◌&&◌, List, [], ◌∷◌, Option, none, some, arith, ◌==◌,
  if◌then◌else◌, Bool-cases, Option-cases, inl, inr, inc64,
}
use cpp_robot_middleware.ErrorCode.{LivenessConfig}
use cpp_robot_middleware.Map.{OrderedMap, lookup, has, IsSorted, id_key, name_key}
use cpp_robot_middleware.Registry.{
  RegistryState, NodeRecord, PublisherEndpoint, SubscriberEndpoint, suspected, is_some,
}
use cpp_robot_middleware.Registry.Liveness.{
  LivenessUpdate, overdue, newly_suspected, Scan, scan, scanned, evaluate_liveness,
}
use cpp_robot_middleware.Registry.Invariant.{holds, IsValid}
use cpp_robot_middleware.Registry.Members.{members-IsValid, scan-member, scan-IsSorted}
use cpp_robot_middleware.Registry.Deaths.{cleanup_all_lem}

-- Every entry carries its key as the number of its node.
abbrev HasOwn : OrderedMap ℕ NodeRecord → Type 0
HasOwn nodes = (j : ℕ) → holds (lookup j nodes) (λ r. r.node_id == j) ≡ is_some (lookup j nodes)

-- The keys of the rest lie above the first.
module _ (i : ℕ) (node : NodeRecord) (nodes : OrderedMap ℕ NodeRecord)
    (sorted : IsSorted ((i, node) ∷ nodes)) where
  first_once : lookup i nodes ≡ none
  first_once = elim (Option-cases (lookup i nodes)) [
    | inl absent ↦ absent
    | inr (r, there) ↦ (let bad : i < i = sorted.0 i (ground arith) in absurd (omega arith))
  ]

  HasOwn-rest : HasOwn ((i, node) ∷ nodes) → HasOwn nodes
  HasOwn-rest own j = ground (arith, own j, first_once)

  first_listed :
      HasOwn ((i, node) ∷ nodes)
      → (test : NodeRecord → Bool) (ids : List ℕ) (j : ℕ) → has j ids ≡ holds (lookup j nodes) test
      → has j (if test node then node.node_id ∷ ids else ids)
        ≡ holds (lookup j ((i, node) ∷ nodes)) test
  first_listed own test ids j rest =
      let mine : node.node_id ≡ i = ground (arith, own i) in
      elim (Bool-cases (test node)) [
        | inl e ↦ rw e (ground (arith, first_once))
        | inr e ↦ rw e (ground (arith, first_once))
      ]

same_test :
    {P : Type 0} (node_of : P → ℕ) (o : Option P) (ids : List ℕ) (dead : ℕ → Bool)
    → ((j : ℕ) → has j ids ≡ dead j)
    → holds o (λ p. has (node_of p) ids) ≡ holds o (λ p. dead (node_of p))
same_test node_of none ids dead h = refl
same_test node_of (some p) ids dead h = h (node_of p)

module _ (config : LivenessConfig) (now : ℕ) where
  -- A node that the scan suspects is marked.
  abbrev pub mark : NodeRecord → NodeRecord
  mark r = if newly_suspected config now r then record r { liveness = suspected } else r

  abbrev pub marked : Option NodeRecord → Option NodeRecord
  marked none = none
  marked (some r) = some (mark r)

  -- A node whose time is over is gone.
  abbrev pub outlived : Option NodeRecord → Option NodeRecord
  outlived none = none
  outlived (some r) = if overdue now config.dead_timeout r then none else some (mark r)

  abbrev pub late : NodeRecord → Bool
  late r = newly_suspected config now r && not (overdue now config.dead_timeout r)

  scan-lookup :
      (nodes : OrderedMap ℕ NodeRecord) (count j : ℕ)
      → lookup j (scan config now nodes count).nodes ≡ marked (lookup j nodes)
  unfolding scan
  scan-lookup [] count j = refl
  scan-lookup ((i, node) ∷ nodes) count j = elim (Bool-cases (j == i)) [
    | inl e ↦ rw e refl
    | inr e ↦
        rw e (scan-lookup nodes (if newly_suspected config now node then inc64 count else count) j)
  ]

  scan-dead :
      (nodes : OrderedMap ℕ NodeRecord) (count : ℕ)
      → IsSorted nodes
      → HasOwn nodes
      → (j : ℕ)
      → has j (scan config now nodes count).dead_ids
        ≡ holds (lookup j nodes) (overdue now config.dead_timeout)
  unfolding scan
  scan-dead [] count sorted own j = refl
  scan-dead ((i, node) ∷ nodes) count sorted own j =
      let more = if newly_suspected config now node then inc64 count else count in
      first_listed i node nodes sorted own (overdue now config.dead_timeout)
        (scan config now nodes more).dead_ids j
        (scan-dead nodes more sorted.1 (HasOwn-rest i node nodes sorted own) j)

  scan-suspected :
      (nodes : OrderedMap ℕ NodeRecord) (count : ℕ)
      → IsSorted nodes
      → HasOwn nodes
      → (j : ℕ) → has j (scan config now nodes count).suspected_nodes ≡ holds (lookup j nodes) late
  unfolding scan
  scan-suspected [] count sorted own j = refl
  scan-suspected ((i, node) ∷ nodes) count sorted own j =
      let more = if newly_suspected config now node then inc64 count else count in
      first_listed i node nodes sorted own late (scan config now nodes more).suspected_nodes j
        (scan-suspected nodes more sorted.1 (HasOwn-rest i node nodes sorted own) j)

module _ (s : RegistryState) (v : IsValid s) (now : ℕ) where
  abbrev scan_of : Scan
  scan_of = scan s.liveness now s.nodes s.metrics.suspected_count

  own_of : HasOwn s.nodes
  own_of j = ground (arith, v.linked.nodes_own j)

  -- `evaluateLiveness` on a valid state does not throw and leaves a valid state. A node whose last
  -- sign lies at least the dead timeout back is gone, with its publishers and its subscribers. Of the others, those
  -- that were alive and silent for at least the suspect timeout are marked as suspected, exactly
  -- these are reported as suspected, and nothing else changes in a node.
  pub evaluate_liveness_lem :
      (s' : RegistryState) × (u : LivenessUpdate) × (evaluate_liveness s now ≡ some (s', u))
      × IsValid s'
      × ((j : ℕ) → lookup j s'.nodes ≡ outlived s.liveness now (lookup j s.nodes))
      × ((j : ℕ) → has j u.suspected_nodes ≡ holds (lookup j s.nodes) (late s.liveness now))
      × ((x : ℕ)
          → lookup x s'.publishers ≡ (
              if holds
                (lookup x s.publishers)
                (λ p. holds (lookup p.node_id s.nodes) (overdue now s.liveness.dead_timeout))
              then none
              else lookup x s.publishers))
      × ((x : ℕ)
          → lookup x s'.subscribers ≡ (
              if holds
                (lookup x s.subscribers)
                (λ p. holds (lookup p.node_id s.nodes) (overdue now s.liveness.dead_timeout))
              then none
              else lookup x s.subscribers))
  unfolding evaluate_liveness
  evaluate_liveness_lem =
      let sorted = scan-IsSorted s.liveness now s.nodes s.metrics.suspected_count v.ordered in
      let valid : IsValid (scanned s scan_of) =
        members-IsValid s v scan_of.nodes (scanned s scan_of).metrics sorted
          (scan-member s.liveness now s.nodes s.metrics.suspected_count) in
      let (s', all, runs, b) = cleanup_all_lem scan_of.dead_ids (scanned s scan_of) [] valid in
      let dead = scan-dead s.liveness now s.nodes s.metrics.suspected_count v.ordered own_of in
      (
        s',
        record { suspected_nodes = scan_of.suspected_nodes; dead_nodes = all },
        rw runs refl,
        b.valid,
        λ j. ground (
          arith,
          b.nodes j,
          dead j,
          scan-lookup s.liveness now s.nodes s.metrics.suspected_count j,
        ),
        scan-suspected s.liveness now s.nodes s.metrics.suspected_count v.ordered own_of,
        λ x.
            b.publishers x
            ∙ ap (λ (t : Bool). if t then none else lookup x s.publishers)
                (same_test (λ (p : PublisherEndpoint). p.node_id) (lookup x s.publishers)
                  scan_of.dead_ids
                  (λ (j : ℕ). holds (lookup j s.nodes) (overdue now s.liveness.dead_timeout)) dead),
        λ x.
            b.subscribers x
            ∙ ap (λ (t : Bool). if t then none else lookup x s.subscribers)
                (same_test (λ (p : SubscriberEndpoint). p.node_id) (lookup x s.subscribers)
                  scan_of.dead_ids
                  (λ (j : ℕ). holds (lookup j s.nodes) (overdue now s.liveness.dead_timeout)) dead),
      )
