-- ===== src/Registry/Invariant.antt =====
-- How the six maps of the registry's state belong together.
use cpp_robot_middleware.Prelude.{
  and_then, u64_max, sym, ◌∙◌, Bool-cases, inl, inr, ℕ, ◌≡◌, refl, Bool, true, false, not, ◌&&◌,
  ◌||◌, List, Option, none, some, arith, ltb, ◌==◌, if◌then◌else◌, bytes_eq, leb,
}
use cpp_robot_middleware.Map.{
  IsSorted, OrderedMap, Key, lookup, insert, erase, lookup-insert, lookup-erase, has, id_key,
  name_key,
}
use cpp_robot_middleware.Registry.{
  RegistryState, NodeRecord, TopicRecord, PublisherEndpoint, SubscriberEndpoint, is_empty, is_some,
}
use cpp_robot_middleware.Registry.Topics.{with_publisher, with_subscribers}

-- A value is there, and passes a test.
abbrev pub holds : {V : Type 0} → Option V → (V → Bool) → Bool
holds none p = false
holds (some v) p = p v

module _ {K V : Type 0} ⦃key : Key K⦄ where
  pub holds-insert :
      (k : K) (v : V) (m : OrderedMap K V) (p : V → Bool) (j : K)
      → holds (lookup j (insert k v m)) p ≡ (if key.same j k then p v else holds (lookup j m) p)
  holds-insert k v m p j = ground (arith, lookup-insert k v m j)

  pub holds-erase :
      (k : K) (m : OrderedMap K V) (p : V → Bool) (j : K)
      → holds (lookup j (erase k m)) p ≡ (if key.same j k then false else holds (lookup j m) p)
  holds-erase k m p j = ground (arith, lookup-erase k m j)

  -- An entry is replaced by another that passes the same test.
  module _ (k : K) (new : V) (m : OrderedMap K V) {old : V} (was : lookup k m ≡ some old) where
    pub holds-update :
        (p : V → Bool)
        → p new ≡ p old
        → (j : K) → holds (lookup j (insert k new m)) p ≡ holds (lookup j m) p
    holds-update p same j = elim (Bool-cases (key.same j k)) [
      | inl e ↦ rw (holds-insert k new m p j, e, (key.same_iff j k).0 e, was) same
      | inr e ↦ rw (holds-insert k new m p j, e) refl
    ]

    pub is_some-update : (j : K) → is_some (lookup j (insert k new m)) ≡ is_some (lookup j m)
    is_some-update j = elim (Bool-cases (key.same j k)) [
      | inl e ↦ rw (lookup-insert k new m j, e, (key.same_iff j k).0 e, was) refl
      | inr e ↦ rw (lookup-insert k new m j, e) refl
    ]

    -- A law of the form that the invariant has.
    pub law-update :
        (p : V → Bool)
        → p new ≡ p old
        → (j : K) → holds (lookup j m) p ≡ is_some (lookup j m)
        → holds (lookup j (insert k new m)) p ≡ is_some (lookup j (insert k new m))
    law-update p same j law = holds-update p same j ∙ law ∙ sym (is_some-update j)

-- A node is entered under its own number, and so on.
abbrev pub own_node : ℕ → ℕ → NodeRecord → Bool
own_node next i r = r.node_id == i && ltb i next

abbrev pub own_topic : ℕ → ℕ → TopicRecord → Bool
own_topic next t r = r.topic_id == t && ltb t next

abbrev pub own_publisher : ℕ → ℕ → PublisherEndpoint → Bool
own_publisher next e p = p.endpoint_id == e && ltb e next

abbrev pub own_subscriber : ℕ → ℕ → SubscriberEndpoint → Bool
own_subscriber next e p = p.endpoint_id == e && ltb e next

-- The two name maps are the inverses of the names; an endpoint stands in the sets of exactly its
-- node and its topic.
pub record IsLinked (s : RegistryState) : Type 0 where
  pub nodes_own :
      (i : ℕ) → holds (lookup i s.nodes) (own_node s.next_node_id i) ≡ is_some (lookup i s.nodes)
  pub topics_own :
      (t : ℕ)
      → holds (lookup t s.topics) (own_topic s.next_topic_id t) ≡ is_some (lookup t s.topics)
  pub publishers_own :
      (e : ℕ)
      → holds (lookup e s.publishers) (own_publisher s.next_endpoint_id e)
        ≡ is_some (lookup e s.publishers)
  pub subscribers_own :
      (e : ℕ)
      → holds (lookup e s.subscribers) (own_subscriber s.next_endpoint_id e)
        ≡ is_some (lookup e s.subscribers)
  pub nodes_named :
      (i : ℕ) (name : List ℕ)
      → holds (lookup i s.nodes) (λ r. bytes_eq name r.node_name)
        ≡ holds (lookup name s.node_names) (λ j. j == i)
  pub topics_named :
      (t : ℕ) (name : List ℕ)
      → holds (lookup t s.topics) (λ r. bytes_eq name r.topic_name)
        ≡ holds (lookup name s.topic_names) (λ j. j == t)
  pub node_publishers :
      (i e : ℕ)
      → holds (lookup i s.nodes) (λ r. has e r.publisher_endpoints)
        ≡ holds (lookup e s.publishers) (λ p. p.node_id == i)
  pub node_subscribers :
      (i e : ℕ)
      → holds (lookup i s.nodes) (λ r. has e r.subscriber_endpoints)
        ≡ holds (lookup e s.subscribers) (λ p. p.node_id == i)
  pub topic_publisher :
      (t e : ℕ)
      → holds (lookup t s.topics) (λ r. holds r.publisher_endpoint (λ x. x == e))
        ≡ holds (lookup e s.publishers) (λ p. p.topic_id == t)
  pub topic_subscribers :
      (t e : ℕ)
      → holds (lookup t s.topics) (λ r. has e r.subscriber_endpoints)
        ≡ holds (lookup e s.subscribers) (λ p. p.topic_id == t)

abbrev pub in_use : TopicRecord → Bool
in_use r = is_some r.publisher_endpoint || not (is_empty r.subscriber_endpoints)

-- No topic is left without endpoints.
abbrev pub IsOccupied : RegistryState → Type 0
IsOccupied s = (t : ℕ) → holds (lookup t s.topics) in_use ≡ is_some (lookup t s.topics)

-- The size that recomputing finds for a topic.
abbrev pub size_of : RegistryState → TopicRecord → Option ℕ
size_of s topic =
    and_then (with_publisher s.publishers topic.publisher_endpoint u64_max)
      (λ first. with_subscribers s.subscribers topic.subscriber_endpoints first)

-- Every topic has the size that recomputing would find.
abbrev pub IsSized : RegistryState → Type 0
IsSized s =
    (t : ℕ) (topic : TopicRecord)
    → lookup t s.topics ≡ some topic
    → size_of s topic ≡ some topic.max_message_size

pub record IsValid (s : RegistryState) : Type 0 where
  pub linked : IsLinked s
  pub occupied : IsOccupied s
  pub ordered : IsSorted s.nodes
  pub sized : IsSized s

-- All numbers given out so far lie below `n`.
pub record Within (n : ℕ) (s : RegistryState) : Type 0 where
  pub node_room : leb s.next_node_id n ≡ true
  pub topic_room : leb s.next_topic_id n ≡ true
  pub endpoint_room : leb s.next_endpoint_id n ≡ true
