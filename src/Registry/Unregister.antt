-- ===== src/Registry/Unregister.antt =====
-- What `unregisterNode` does.
use cpp_robot_middleware.Prelude.{
  ℕ, ◌≡◌, refl, ◌∙◌, false, ◌&&◌, List, [], ◌∷◌, none, some, arith, ◌==◌, if◌then◌else◌, bytes_eq,
  bytes_eq_iff,
}
use cpp_robot_middleware.ErrorCode.{ok}
use cpp_robot_middleware.Map.{erase-IsSorted, lookup, erase, lookup-erase, has, id_key, name_key}
use cpp_robot_middleware.Registry.{RegistryState, NodeRecord}
use cpp_robot_middleware.Registry.Nodes.{owned_node}
use cpp_robot_middleware.Registry.Endpoints.{
  unadvertise_all, unsubscribe_all, erase_node, unregister_node,
}
use cpp_robot_middleware.Registry.Invariant.{holds, IsValid}
use cpp_robot_middleware.Registry.Removal.{
  published_by, subscribed_by, Leaves, Leaves-refl, Leaves-trans,
}
use cpp_robot_middleware.Registry.Unadvertise.{
  owned_node-some, owned_node_lem, unadvertise_lem, unsubscribe_lem,
}

-- The node stays owned.
Leaves-owned :
    (s : RegistryState) (connection i : ℕ) (node : NodeRecord) (s' : RegistryState)
    (a : Leaves s i node s')
    → owned_node s connection i ≡ some node
    → owned_node s' connection i ≡ some a.left
Leaves-owned s connection i node s' a owned =
    owned_node_lem s' connection i a.there
      (a.same_connection ∙ (owned_node-some s connection i owned).1)

unadvertise_all_lem :
    (es : List ℕ) (s : RegistryState) (connection i : ℕ) (node : NodeRecord)
    → IsValid s
    → owned_node s connection i ≡ some node
    → (s' : RegistryState) × (unadvertise_all es s connection i ≡ some s')
      × Leaves s i node s'
      × ((x : ℕ)
          → lookup x s'.publishers
            ≡ (if has x es && published_by s i x then none else lookup x s.publishers))
      × (s'.subscribers ≡ s.subscribers)
unfolding unadvertise_all
unadvertise_all_lem [] s connection i node v owned =
    (s, refl, Leaves-refl s i node v (owned_node-some s connection i owned).0, λ x. refl, refl)
unadvertise_all_lem (e ∷ es) s connection i node v owned =
    let (s₁, runs, a, pubs, subs) = unadvertise_lem s v connection i e owned in
    let (s₂, runs', b, pubs', subs') =
      unadvertise_all_lem es s₁ connection i a.left a.valid
        (Leaves-owned s connection i node s₁ a owned) in
    (
      s₂,
      rw runs runs',
      Leaves-trans s i node s₁ s₂ a b,
      λ x. ground (arith, pubs x, pubs' x),
      subs' ∙ subs,
    )

unsubscribe_all_lem :
    (es : List ℕ) (s : RegistryState) (connection i : ℕ) (node : NodeRecord)
    → IsValid s
    → owned_node s connection i ≡ some node
    → (s' : RegistryState) × (unsubscribe_all es s connection i ≡ some s')
      × Leaves s i node s'
      × ((x : ℕ)
          → lookup x s'.subscribers
            ≡ (if has x es && subscribed_by s i x then none else lookup x s.subscribers))
      × (s'.publishers ≡ s.publishers)
unfolding unsubscribe_all
unsubscribe_all_lem [] s connection i node v owned =
    (s, refl, Leaves-refl s i node v (owned_node-some s connection i owned).0, λ x. refl, refl)
unsubscribe_all_lem (e ∷ es) s connection i node v owned =
    let (s₁, runs, a, subs, pubs) = unsubscribe_lem s v connection i e owned in
    let (s₂, runs', b, subs', pubs') =
      unsubscribe_all_lem es s₁ connection i a.left a.valid
        (Leaves-owned s connection i node s₁ a owned) in
    (
      s₂,
      rw runs runs',
      Leaves-trans s i node s₁ s₂ a b,
      λ x. ground (arith, subs x, subs' x),
      pubs' ∙ pubs,
    )

-- A node without endpoints goes.
module _ (s : RegistryState) (v : IsValid s) (i : ℕ) (node : NodeRecord)
    (there : lookup i s.nodes ≡ some node) (silent : (x : ℕ) → published_by s i x ≡ false)
    (deaf : (x : ℕ) → subscribed_by s i x ≡ false) where
  erased-named :
      (j : ℕ) (name : List ℕ)
      → holds (lookup j (erase i s.nodes)) (λ r. bytes_eq name r.node_name)
        ≡ holds (lookup name (erase node.node_name s.node_names)) (λ k. k == j)
  erased-named j name = ground (
    arith,
    lookup-erase i s.nodes j,
    lookup-erase node.node_name s.node_names name,
    v.linked.nodes_named j name,
    v.linked.nodes_named i name,
    bytes_eq_iff name node.node_name,
  )

  erase_node-IsValid : IsValid (erase_node s i node.node_name)
  erase_node-IsValid = record {
    linked = record {
      nodes_own = λ j. ground (arith, lookup-erase i s.nodes j, v.linked.nodes_own j);
      topics_own = v.linked.topics_own;
      publishers_own = v.linked.publishers_own;
      subscribers_own = v.linked.subscribers_own;
      nodes_named = erased-named;
      topics_named = v.linked.topics_named;
      node_publishers =
          λ j x. ground (arith, lookup-erase i s.nodes j, v.linked.node_publishers j x, silent x);
      node_subscribers =
          λ j x. ground (arith, lookup-erase i s.nodes j, v.linked.node_subscribers j x, deaf x);
      topic_publisher = v.linked.topic_publisher;
      topic_subscribers = v.linked.topic_subscribers;
    };
    occupied = v.occupied;
    ordered = erase-IsSorted i s.nodes v.ordered;
    sized = v.sized;
  }

-- The node and its endpoints are gone, and the rest is the same.
pub record Unregistered (s : RegistryState) (i : ℕ) (s' : RegistryState) : Type 0 where
  pub valid : IsValid s'
  pub nodes : (j : ℕ) → lookup j s'.nodes ≡ (if j == i then none else lookup j s.nodes)
  pub publishers :
      (x : ℕ)
      → lookup x s'.publishers ≡ (if published_by s i x then none else lookup x s.publishers)
  pub subscribers :
      (x : ℕ)
      → lookup x s'.subscribers ≡ (if subscribed_by s i x then none else lookup x s.subscribers)
  pub kept_next_node : s'.next_node_id ≡ s.next_node_id
  pub kept_next_topic : s'.next_topic_id ≡ s.next_topic_id
  pub kept_next_endpoint : s'.next_endpoint_id ≡ s.next_endpoint_id
  pub kept_liveness : s'.liveness ≡ s.liveness
  pub kept_metrics : s'.metrics ≡ s.metrics

unregister_steps :
    (s : RegistryState) (connection i : ℕ) (s₁ s₂ : RegistryState) (node left : NodeRecord)
    → owned_node s connection i ≡ some node
    → unadvertise_all node.publisher_endpoints s connection i ≡ some s₁
    → unsubscribe_all node.subscriber_endpoints s₁ connection i ≡ some s₂
    → lookup i s₂.nodes ≡ some left
    → unregister_node s connection i ≡ some (erase_node s₂ i left.node_name, ok)
unfolding unregister_node
unregister_steps s connection i s₁ s₂ node left owned runs runs' there = ground arith

-- On a valid state `unregisterNode`, called by the control connection of the node, does not throw,
-- returns OK and leaves a valid state, in which exactly the node, its publishers and its subscribers
-- are gone: every other node and endpoint is as it was, and so are the next numbers and the metrics.
pub unregister_node_lem :
    (s : RegistryState) (connection i : ℕ) {node : NodeRecord}
    → IsValid s
    → owned_node s connection i ≡ some node
    → (s' : RegistryState) × (unregister_node s connection i ≡ some (s', ok)) × Unregistered s i s'
unregister_node_lem s connection i {node} v owned =
    let there = (owned_node-some s connection i owned).0 in
    let (s₁, runs, a, pubs, subs) =
      unadvertise_all_lem node.publisher_endpoints s connection i node v owned in
    let (s₂, runs', b, subs', pubs') =
      unsubscribe_all_lem node.subscriber_endpoints s₁ connection i a.left a.valid
        (Leaves-owned s connection i node s₁ a owned) in
    let publishers : (x : ℕ)
        → lookup x s₂.publishers ≡ (if published_by s i x then none else lookup x s.publishers) =
      λ x. rw pubs' (ground (arith, pubs x, v.linked.node_publishers i x)) in
    let subscribers : (x : ℕ)
        → lookup x s₂.subscribers ≡ (if subscribed_by s i x then none else lookup x s.subscribers) =
      λ x. (let old = rw subs at (subs' x) in ground (arith, v.linked.node_subscribers i x)) in
    let silent : (x : ℕ) → published_by s₂ i x ≡ false = λ x. ground (arith, publishers x) in
    let deaf : (x : ℕ) → subscribed_by s₂ i x ≡ false = λ x. ground (arith, subscribers x) in
    (
      erase_node s₂ i b.left.node_name,
      unregister_steps s connection i s₁ s₂ node b.left owned runs runs' b.there,
      record {
        valid = erase_node-IsValid s₂ b.valid i b.left b.there silent deaf;
        nodes = λ j. ground (arith, lookup-erase i s₂.nodes j, b.other_nodes j, a.other_nodes j);
        publishers = publishers;
        subscribers = subscribers;
        kept_next_node = b.kept_next_node ∙ a.kept_next_node;
        kept_next_topic = b.kept_next_topic ∙ a.kept_next_topic;
        kept_next_endpoint = b.kept_next_endpoint ∙ a.kept_next_endpoint;
        kept_liveness = b.kept_liveness ∙ a.kept_liveness;
        kept_metrics = b.kept_metrics ∙ a.kept_metrics;
      },
    )
