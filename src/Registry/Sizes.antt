-- ===== src/Registry/Sizes.antt =====
-- How the size of a topic follows its endpoints: `recomputeTopicMaxMessageSize`.
use mathlib.Core.Path.{fun_ext}
use cpp_robot_middleware.Prelude.{
  ℕ, ◌≡◌, refl, ap, ◌∙◌, true, false, List, [], ◌∷◌, Option, none, some, arith, ltb, min, ◌==◌,
  Bool-cases, Option-cases, inl, inr, and_then, u64_max,
}
use cpp_robot_middleware.Map.{
  OrderedMap, lookup, erase, emplace, lookup-erase, lookup-emplace, has, include, id_key,
}
use cpp_robot_middleware.Registry.{
  RegistryState, TopicRecord, PublisherEndpoint, SubscriberEndpoint,
}
use cpp_robot_middleware.Registry.Topics.{with_publisher, with_subscribers}
use cpp_robot_middleware.Registry.Invariant.{holds, IsLinked, size_of}

-- The entries of the listed endpoints are the same.
abbrev pub Agree : {V : Type 0} → List ℕ → OrderedMap ℕ V → OrderedMap ℕ V → Type 0
Agree es m m' = (x : ℕ) → has x es ≡ true → lookup x m' ≡ lookup x m

pub with_subscribers-Agree :
    (m m' : OrderedMap ℕ SubscriberEndpoint) (es : List ℕ) (k : ℕ)
    → Agree es m m'
    → with_subscribers m' es k ≡ with_subscribers m es k
unfolding with_subscribers
with_subscribers-Agree m m' [] k agree = refl
with_subscribers-Agree m m' (e ∷ es) k agree = elim (Option-cases (lookup e m)) [
  | inl absent ↦ rw (agree e (ground arith), absent) refl
  | inr (r, there) ↦
      rw (agree e (ground arith), there)
        (with_subscribers-Agree m m' es (min k r.max_message_size) (λ x h. agree x (ground arith)))
]

swap : (a b c : ℕ) → min (min a b) c ≡ min (min a c) b
swap a b c = omega arith

-- A smaller start gives the smaller of the two.
pub with_subscribers-min :
    (m : OrderedMap ℕ SubscriberEndpoint) (es : List ℕ) (k a z : ℕ)
    → with_subscribers m es k ≡ some z
    → with_subscribers m es (min k a) ≡ some (min z a)
unfolding with_subscribers
with_subscribers-min m [] k a z h = (let same : k ≡ z = cc in rw same refl)
with_subscribers-min m (e ∷ es) k a z h = elim (Option-cases (lookup e m)) [
  | inl absent ↦ absurd (ground arith)
  | inr (r, there) ↦ rw there (
      let rest = with_subscribers-min m es (min k r.max_message_size) a z (rw there at h) in
      rw (swap k a r.max_message_size) rest)
]

pub with_subscribers-include :
    (m m' : OrderedMap ℕ SubscriberEndpoint) (e : ℕ) (new : SubscriberEndpoint) (es : List ℕ)
    (k z : ℕ)
    → lookup e m' ≡ some new
    → has e es ≡ false
    → Agree es m m'
    → with_subscribers m es k ≡ some z
    → with_subscribers m' (include e es) k ≡ some (min z new.max_message_size)
unfolding with_subscribers
with_subscribers-include m m' e new [] k z there apart agree h =
    (let same : k ≡ z = cc in rw (there, same) refl)
with_subscribers-include m m' e new (x ∷ es) k z there apart agree h =
    elim (Option-cases (lookup x m)) [
      | inl absent ↦ absurd (ground arith)
      | inr (r, old) ↦
          (let other : (e == x) ≡ false = ground arith in
            let old' : lookup x m' ≡ some r = agree x (ground arith) ∙ old in
            let h' = rw old at h in
            rw other (elim (Bool-cases (ltb e x)) [
              | inl before ↦ rw before (
                  rw (there, old')
                    (with_subscribers-Agree m m' es
                        (min (min k new.max_message_size) r.max_message_size)
                        (λ y hy. agree y (ground arith))
                      ∙ ap (λ (n : ℕ). with_subscribers m es n)
                          (swap k new.max_message_size r.max_message_size)
                      ∙ with_subscribers-min m es (min k r.max_message_size) new.max_message_size z
                          h'))
              | inr after ↦ rw after (
                  rw old' (
                    with_subscribers-include m m' e new es (min k r.max_message_size) z there
                      (ground arith) (λ y hy. agree y (ground arith)) h'))
            ]))
    ]

pub with_publisher-Agree :
    (m m' : OrderedMap ℕ PublisherEndpoint) (o : Option ℕ) (k : ℕ)
    → ((x : ℕ) → holds o (λ y. y == x) ≡ true → lookup x m' ≡ lookup x m)
    → with_publisher m' o k ≡ with_publisher m o k
with_publisher-Agree m m' none k agree = refl
with_publisher-Agree m m' (some e) k agree = rw (agree e (ground arith)) refl

pub size_of-Agree :
    (s s' : RegistryState) (topic : TopicRecord)
    → ((x : ℕ)
        → holds topic.publisher_endpoint (λ y. y == x) ≡ true
        → lookup x s'.publishers ≡ lookup x s.publishers)
    → Agree topic.subscriber_endpoints s.subscribers s'.subscribers
    → size_of s' topic ≡ size_of s topic
size_of-Agree s s' topic pubs subs =
    rw (with_publisher-Agree s.publishers s'.publishers topic.publisher_endpoint u64_max pubs) (
      ap
        (λ (f : ℕ → Option ℕ).
          and_then (with_publisher s.publishers topic.publisher_endpoint u64_max) f)
        (fun_ext (λ first.
          with_subscribers-Agree s.subscribers s'.subscribers topic.subscriber_endpoints first
            subs)))

-- The endpoints of the other topics are untouched.
module _ (s : RegistryState) (v : IsLinked s) (t : ℕ) (topic : TopicRecord)
    (on : lookup t s.topics ≡ some topic) where
  pub drop_publisher-size :
      (s' : RegistryState) (e : ℕ) (p : PublisherEndpoint)
      → lookup e s.publishers ≡ some p
      → (t == p.topic_id) ≡ false
      → s'.publishers ≡ erase e s.publishers
      → s'.subscribers ≡ s.subscribers
      → size_of s' topic ≡ size_of s topic
  drop_publisher-size s' e p entered apart pubs subs =
      size_of-Agree s s' topic
        (λ x h. rw pubs (ground (arith, lookup-erase e s.publishers x, v.topic_publisher t x)))
        (λ x h. rw subs refl)

  pub drop_subscriber-size :
      (s' : RegistryState) (e : ℕ) (p : SubscriberEndpoint)
      → lookup e s.subscribers ≡ some p
      → (t == p.topic_id) ≡ false
      → s'.subscribers ≡ erase e s.subscribers
      → s'.publishers ≡ s.publishers
      → size_of s' topic ≡ size_of s topic
  drop_subscriber-size s' e p entered apart subs pubs =
      size_of-Agree s s' topic (λ x h. rw pubs refl)
        (λ x h. rw subs (ground (arith, lookup-erase e s.subscribers x, v.topic_subscribers t x)))

  pub add_publisher-size :
      (s' : RegistryState) (e : ℕ) (p : PublisherEndpoint)
      → lookup e s.publishers ≡ none
      → s'.publishers ≡ emplace e p s.publishers
      → s'.subscribers ≡ s.subscribers
      → size_of s' topic ≡ size_of s topic
  add_publisher-size s' e p fresh pubs subs =
      size_of-Agree s s' topic
        (λ x h.
          rw pubs (ground (arith, lookup-emplace e p s.publishers x fresh, v.topic_publisher t x)))
        (λ x h. rw subs refl)

  pub add_subscriber-size :
      (s' : RegistryState) (e : ℕ) (p : SubscriberEndpoint)
      → lookup e s.subscribers ≡ none
      → s'.subscribers ≡ emplace e p s.subscribers
      → s'.publishers ≡ s.publishers
      → size_of s' topic ≡ size_of s topic
  add_subscriber-size s' e p fresh subs pubs =
      size_of-Agree s s' topic (λ x h. rw pubs refl)
        (λ x h.
          rw subs
            (ground (arith, lookup-emplace e p s.subscribers x fresh, v.topic_subscribers t x)))
