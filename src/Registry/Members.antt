-- ===== src/Registry/Members.antt =====
-- `registerNode`, heartbeats and the liveness scan against the invariant.
use cpp_robot_middleware.Prelude.{
  ℕ, ◌≡◌, refl, sym, ap, ◌∙◌, Bool, true, ◌&&◌, List, [], ◌∷◌, Option, none, some, arith, ltb, ◌==◌,
  if◌then◌else◌, Bool-cases, Option-cases, inl, inr, bytes_eq, bytes_eq_iff, inc64, u64_max,
}
use cpp_robot_middleware.ErrorCode.{LivenessConfig, ok, invalid_argument, duplicate_node}
use cpp_robot_middleware.Map.{
  IsSorted, has_key, insert-IsSorted, OrderedMap, lookup, insert, emplace, lookup-insert,
  lookup-emplace, has, id_key, name_key,
}
use cpp_robot_middleware.Registry.{RegistryState, RegistryMetrics, NodeRecord, is_empty, is_some}
use cpp_robot_middleware.Registry.Nodes.{
  new_node, no_id, register_node, detach_all, detach_heartbeat_connection,
}
use cpp_robot_middleware.Registry.Liveness.{newly_suspected, scan}
use cpp_robot_middleware.Registry.Invariant.{holds, IsValid, Within}
use cpp_robot_middleware.Registry.Link.{next_node-fresh, inc64_small}
use cpp_robot_middleware.Registry.Advertise.{Kept, unchanged}

-- What the invariant reads of a node.
pub record Member : Type 0 where
  pub node_id : ℕ
  pub node_name : List ℕ
  pub publisher_endpoints : List ℕ
  pub subscriber_endpoints : List ℕ

abbrev pub member : NodeRecord → Member
member r = record {
  node_id = r.node_id;
  node_name = r.node_name;
  publisher_endpoints = r.publisher_endpoints;
  subscriber_endpoints = r.subscriber_endpoints;
}

abbrev pub member_of : Option NodeRecord → Option Member
member_of none = none
member_of (some r) = some (member r)

-- The nodes are replaced by others of the same membership.
module _ (s : RegistryState) (v : IsValid s) (nodes : OrderedMap ℕ NodeRecord)
    (metrics : RegistryMetrics) (sorted : IsSorted nodes)
    (same : (j : ℕ) → member_of (lookup j nodes) ≡ member_of (lookup j s.nodes)) where
  holds-member :
      (q : Member → Bool) (o : Option NodeRecord)
      → holds o (λ r. q (member r)) ≡ holds (member_of o) q
  holds-member q none = refl
  holds-member q (some r) = refl

  is_some-member : (o : Option NodeRecord) → is_some o ≡ is_some (member_of o)
  is_some-member none = refl
  is_some-member (some r) = refl

  same_holds :
      (q : Member → Bool) (j : ℕ)
      → holds (lookup j nodes) (λ r. q (member r)) ≡ holds (lookup j s.nodes) (λ r. q (member r))
  same_holds q j =
      holds-member q (lookup j nodes)
      ∙ ap (λ (o : Option Member). holds o q) (same j)
      ∙ sym (holds-member q (lookup j s.nodes))

  same_some : (j : ℕ) → is_some (lookup j nodes) ≡ is_some (lookup j s.nodes)
  same_some j =
      is_some-member (lookup j nodes)
      ∙ ap (λ (o : Option Member). is_some o) (same j)
      ∙ sym (is_some-member (lookup j s.nodes))

  pub members-IsValid : IsValid (record s { nodes = nodes; metrics = metrics })
  members-IsValid = record {
    linked = record {
      nodes_own = λ j.
          same_holds (λ r. r.node_id == j && ltb j s.next_node_id) j
          ∙ v.linked.nodes_own j
          ∙ sym (same_some j);
      topics_own = v.linked.topics_own;
      publishers_own = v.linked.publishers_own;
      subscribers_own = v.linked.subscribers_own;
      nodes_named =
          λ j name. same_holds (λ r. bytes_eq name r.node_name) j ∙ v.linked.nodes_named j name;
      topics_named = v.linked.topics_named;
      node_publishers =
          λ j x. same_holds (λ r. has x r.publisher_endpoints) j ∙ v.linked.node_publishers j x;
      node_subscribers =
          λ j x. same_holds (λ r. has x r.subscriber_endpoints) j ∙ v.linked.node_subscribers j x;
      topic_publisher = v.linked.topic_publisher;
      topic_subscribers = v.linked.topic_subscribers;
    };
    occupied = v.occupied;
    ordered = sorted;
    sized = v.sized;
  }

pub insert-member :
    (i : ℕ) (new old : NodeRecord) (nodes : OrderedMap ℕ NodeRecord)
    → lookup i nodes ≡ some old
    → member new ≡ member old
    → (j : ℕ) → member_of (lookup j (insert i new nodes)) ≡ member_of (lookup j nodes)
insert-member i new old nodes there same j = elim (Bool-cases (j == i)) [
  | inl e ↦ rw (lookup-insert i new nodes j, e, ==→eq j i e, there) (ap some same)
  | inr e ↦ rw (lookup-insert i new nodes j, e) refl
]
  where
    ==→eq : (a b : ℕ) → (a == b) ≡ true → a ≡ b
    ==→eq a b h = ground arith

pub detach_all-member :
    (connection : ℕ) (nodes : OrderedMap ℕ NodeRecord) (j : ℕ)
    → member_of (lookup j (detach_all connection nodes)) ≡ member_of (lookup j nodes)
unfolding detach_all
detach_all-member connection [] j = refl
detach_all-member connection ((i, node) ∷ nodes) j = elim (Bool-cases (j == i)) [
  | inl e ↦ rw e (elim (Bool-cases (node.heartbeat_connection == connection)) [
    | inl c ↦ rw c refl
    | inr c ↦ rw c refl
  ])
  | inr e ↦ rw e (detach_all-member connection nodes j)
]

pub scan-member :
    (config : LivenessConfig) (now : ℕ) (nodes : OrderedMap ℕ NodeRecord) (count j : ℕ)
    → member_of (lookup j (scan config now nodes count).nodes) ≡ member_of (lookup j nodes)
unfolding scan
scan-member config now [] count j = refl
scan-member config now ((i, node) ∷ nodes) count j = elim (Bool-cases (j == i)) [
  | inl e ↦ rw e (elim (Bool-cases (newly_suspected config now node)) [
    | inl c ↦ rw c refl
    | inr c ↦ rw c refl
  ])
  | inr e ↦ rw e (
      scan-member config now nodes (if newly_suspected config now node then inc64 count else count)
        j)
]

-- The keys are the same.
same_key :
    (a b : OrderedMap ℕ NodeRecord) (x : ℕ)
    → member_of (lookup x a) ≡ member_of (lookup x b)
    → has_key x a ≡ true
    → has_key x b ≡ true
same_key a b x same h = ground arith

detach_all-IsSorted :
    (connection : ℕ) (nodes : OrderedMap ℕ NodeRecord)
    → IsSorted nodes
    → IsSorted (detach_all connection nodes)
unfolding detach_all
detach_all-IsSorted connection [] h = tt
detach_all-IsSorted connection ((i, node) ∷ nodes) (first, rest) = (
  λ x there.
      first x (
        same_key (detach_all connection nodes) nodes x (detach_all-member connection nodes x)
          there),
  detach_all-IsSorted connection nodes rest,
)

pub scan-IsSorted :
    (config : LivenessConfig) (now : ℕ) (nodes : OrderedMap ℕ NodeRecord) (count : ℕ)
    → IsSorted nodes
    → IsSorted (scan config now nodes count).nodes
unfolding scan
scan-IsSorted config now [] count h = tt
scan-IsSorted config now ((i, node) ∷ nodes) count (first, rest) =
    let more = if newly_suspected config now node then inc64 count else count in
    (
      λ x there. first x (
          same_key (scan config now nodes more).nodes nodes x (scan-member config now nodes more x)
            there),
      scan-IsSorted config now nodes more rest,
    )

pub detach-IsValid :
    (s : RegistryState) (connection : ℕ)
    → IsValid s
    → IsValid (detach_heartbeat_connection s connection)
unfolding detach_heartbeat_connection
detach-IsValid s connection v =
    members-IsValid s v (detach_all connection s.nodes) s.metrics
      (detach_all-IsSorted connection s.nodes v.ordered) (detach_all-member connection s.nodes)

module _ (n : ℕ) (s : RegistryState) (v : IsValid s) (w : Within n s)
    (room : ltb n u64_max ≡ true) where
  registered-IsValid :
      (connection : ℕ) (name : List ℕ) (now : ℕ)
      → lookup name s.node_names ≡ none
      → IsValid (record s {
        next_node_id = inc64 s.next_node_id;
        next_session_id = inc64 s.next_session_id;
        nodes = emplace s.next_node_id (new_node s connection name now) s.nodes;
        node_names = emplace name s.next_node_id s.node_names;
      })
  registered-IsValid connection name now fresh = record {
    linked = record {
      nodes_own = λ j.
          rw (entered j)
            (ground (arith, v.linked.nodes_own j, inc64_small s.next_node_id, w.node_room));
      topics_own = v.linked.topics_own;
      publishers_own = v.linked.publishers_own;
      subscribers_own = v.linked.subscribers_own;
      nodes_named = λ j nm.
          rw (entered j, named nm)
            (ground (
              arith,
              v.linked.nodes_named j nm,
              v.linked.nodes_named s.next_node_id nm,
              next_node-fresh s v.linked,
              bytes_eq_iff nm name,
            ));
      topics_named = v.linked.topics_named;
      node_publishers = λ j x. rw (entered j) (
          ground (
            arith,
            v.linked.node_publishers j x,
            v.linked.node_publishers s.next_node_id x,
            next_node-fresh s v.linked,
          ));
      node_subscribers = λ j x. rw (entered j) (
          ground (
            arith,
            v.linked.node_subscribers j x,
            v.linked.node_subscribers s.next_node_id x,
            next_node-fresh s v.linked,
          ));
      topic_publisher = v.linked.topic_publisher;
      topic_subscribers = v.linked.topic_subscribers;
    };
    occupied = v.occupied;
    ordered =
        rw (next_node-fresh s v.linked, emplace)
          (insert-IsSorted s.next_node_id (new_node s connection name now) s.nodes v.ordered);
    sized = v.sized;
  }
    where
      entered :
          (j : ℕ)
          → lookup j (emplace s.next_node_id (new_node s connection name now) s.nodes) ≡ (
              if j == s.next_node_id
              then some (new_node s connection name now)
              else lookup j s.nodes)
      entered j =
          lookup-emplace s.next_node_id (new_node s connection name now) s.nodes j
            (next_node-fresh s v.linked)

      named :
          (nm : List ℕ)
          → lookup nm (emplace name s.next_node_id s.node_names)
            ≡ (if bytes_eq nm name then some s.next_node_id else lookup nm s.node_names)
      named nm = lookup-emplace name s.next_node_id s.node_names nm fresh

  pub register_total :
      (connection : ℕ) (name : List ℕ) (now : ℕ)
      → Kept n s v w room (some (register_node s connection name now))
  unfolding register_node
  register_total connection name now = elim (Bool-cases (is_empty name)) [
    | inl empty ↦ rw empty (unchanged n s v w room (no_id invalid_argument))
    | inr given ↦ rw given (elim (Option-cases (lookup name s.node_names)) [
      | inr (i, taken) ↦ rw taken (unchanged n s v w room (no_id duplicate_node))
      | inl fresh ↦ rw fresh (
        record s {
          next_node_id = inc64 s.next_node_id;
          next_session_id = inc64 s.next_session_id;
          nodes = emplace s.next_node_id (new_node s connection name now) s.nodes;
          node_names = emplace name s.next_node_id s.node_names;
        },
        record { error = ok; id = s.next_node_id; session_id = s.next_session_id },
        refl,
        registered-IsValid connection name now fresh,
        record {
          node_room = ground (arith, inc64_small s.next_node_id, w.node_room);
          topic_room = ground (arith, w.topic_room);
          endpoint_room = ground (arith, w.endpoint_room);
        },
      )
    ])
  ]
