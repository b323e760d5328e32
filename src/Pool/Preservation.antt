-- ===== src/Pool/Preservation.antt =====
-- The operations of the pool and its invariant, and sequences of calls.
use cpp_robot_middleware.Prelude.{
  ℕ, ◌<◌, ◌≡◌, inl, inr, refl, sym, subst, true, List, [], ◌∷◌, Option, length, arith,
}
use cpp_robot_middleware.Handle.{ChunkHandle}
use cpp_robot_middleware.Pool.{MemoryPool, PoolInstrumentation, known}
use cpp_robot_middleware.Pool.Allocate.{allocate}
use cpp_robot_middleware.Pool.Allocation.{allocate-cases}
use cpp_robot_middleware.Pool.Publish.{write_and_publish, publish_loaned, mark_published}
use cpp_robot_middleware.Pool.Release.{add_reference, release, reclaim, cancel}
use cpp_robot_middleware.Pool.Cases.{
  add_reference-cases, release-cases, reclaim-cases, cancel-cases, publish_loaned-cases,
  write_and_publish-cases, Publishable,
}
use cpp_robot_middleware.Pool.Invariant.{IsValid, kept-IsValid, freed-IsValid, taken-IsValid}

-- A handle that passes the two checks names a chunk.
pub known-inside :
    {p : MemoryPool} (handle : ChunkHandle)
    → IsValid p
    → known p handle ≡ true
    → handle.chunk_index < length p.chunks
unfolding known
known-inside handle v k = ground (arith, v.sizes)

-- The change of a refused call, and of one that is not.
refused-IsValid : {p q : MemoryPool} → IsValid p → q ≡ p → IsValid q
refused-IsValid v e = subst IsValid (sym e) v

done-IsValid :
    {A : Type 0} {out : MemoryPool × A} {q : MemoryPool} {a : A}
    → out ≡ (q, a)
    → IsValid q
    → IsValid out.0
done-IsValid e v = subst (λ o. IsValid o.0) (sym e) v

module _ {p : MemoryPool} (handle : ChunkHandle) (v : IsValid p) where
  add_reference-IsValid : IsValid (add_reference p handle).0
  add_reference-IsValid = elim (add_reference-cases p handle) [
    | inl (e, _) ↦ refused-IsValid v e
    | inr (k, s, _, _, e) ↦ done-IsValid e (
        kept-IsValid v handle.chunk_index _ (known-inside handle v k)
          (record {
            class_kept = refl;
            capacity_kept = refl;
            pool_kept = refl;
            topic_kept = refl;
            referenced = rw s (ground arith);
          })
          p.payload p.instrumentation refl)
  ]

  release-IsValid : IsValid (release p handle).0
  release-IsValid = elim (release-cases p handle) [
    | inl (e, _, _) ↦ refused-IsValid v e
    | inr (k, s, r, e) ↦ done-IsValid e (
        kept-IsValid v handle.chunk_index _ (known-inside handle v k)
          (record {
            class_kept = refl;
            capacity_kept = refl;
            pool_kept = refl;
            topic_kept = refl;
            referenced = ground arith;
          })
          p.payload _ (ground arith))
  ]

  reclaim-IsValid : IsValid (reclaim p handle).0
  reclaim-IsValid = elim (reclaim-cases p handle) [
    | inl (e, _) ↦ refused-IsValid v e
    | inr (k, s, r, e) ↦ done-IsValid e (
        freed-IsValid v handle.chunk_index _ (known-inside handle v k)
          (record {
            class_kept = refl;
            capacity_kept = refl;
            pool_kept = refl;
            topic_kept = refl;
            referenced = ground arith;
          })
          _ (ground arith) refl)
  ]

  cancel-IsValid : IsValid (cancel p handle).0
  cancel-IsValid = elim (cancel-cases p handle) [
    | inl (e, _) ↦ refused-IsValid v e
    | inr (k, s, e) ↦ done-IsValid e (
        freed-IsValid v handle.chunk_index _ (known-inside handle v k)
          (record {
            class_kept = refl;
            capacity_kept = refl;
            pool_kept = refl;
            topic_kept = refl;
            referenced = ground (arith, v.references handle.chunk_index);
          })
          _ (ground arith) refl)
  ]

  published-IsValid :
      (payload : ℕ → ℕ) (n : PoolInstrumentation) (payload_size sequence timestamp references : ℕ)
      → Publishable p handle payload_size sequence references
      → IsValid (record (mark_published p handle sequence timestamp references) {
        payload = payload;
        instrumentation = n;
      })
  published-IsValid payload n payload_size sequence timestamp references c =
      kept-IsValid v handle.chunk_index _ (known-inside handle v c.known_handle)
        (record {
          class_kept = refl;
          capacity_kept = refl;
          pool_kept = refl;
          topic_kept = refl;
          referenced = ground (arith, c.referenced);
        })
        payload n (ground (arith, c.is_loan))

  publish_loaned-IsValid :
      (payload_size sequence timestamp references : ℕ)
      → IsValid (publish_loaned p handle payload_size sequence timestamp references).0
  publish_loaned-IsValid payload_size sequence timestamp references =
      elim (publish_loaned-cases p handle payload_size sequence timestamp references) [
        | inl (e, _) ↦ refused-IsValid v e
        | inr (c, e) ↦
            done-IsValid e (published-IsValid _ _ payload_size sequence timestamp references c)
      ]

  write_and_publish-IsValid :
      (bytes : Option (List ℕ)) (payload_size sequence timestamp references : ℕ)
      → IsValid (write_and_publish p handle bytes payload_size sequence timestamp references).0
  write_and_publish-IsValid bytes payload_size sequence timestamp references =
      elim (write_and_publish-cases p handle bytes payload_size sequence timestamp references) [
        | inl (e, _) ↦ refused-IsValid v e
        | inr (c, e) ↦
            done-IsValid e (published-IsValid _ _ payload_size sequence timestamp references c)
      ]

pub allocate-IsValid : {p : MemoryPool} (size : ℕ) → IsValid p → IsValid (allocate p size).0
allocate-IsValid {p} size v = elim (allocate-cases size v) [
  | inl (_, e) ↦ done-IsValid e v
  | inr (c, f, inl (_, e)) ↦ done-IsValid e (record {
    sizes = v.sizes;
    classes = v.classes;
    class_in = v.class_in;
    class_of = v.class_of;
    capacity_of = v.capacity_of;
    class_capacity = v.class_capacity;
    references = v.references;
    pool_of = v.pool_of;
    topic_of = v.topic_of;
    exact = v.exact;
  })
  | inr (c, f, inr (i, rest, t, e)) ↦ done-IsValid e (
      taken-IsValid v i _ t.inside
        (record {
          class_kept = refl;
          capacity_kept = refl;
          pool_kept = refl;
          topic_kept = refl;
          referenced = ground (arith, t.unreferenced);
        })
        c rest _ t.class_exists t.front refl)
]

-- A call of the pool, by its arguments.
pub data Call : Type 0 where
  allocates : ℕ → Call
  writes : ChunkHandle → Option (List ℕ) → ℕ → ℕ → ℕ → ℕ → Call
  publishes : ChunkHandle → ℕ → ℕ → ℕ → ℕ → Call
  adds_reference releases reclaims cancels : ChunkHandle → Call

unfoldable pub step : MemoryPool → Call → MemoryPool
step p (allocates size) = (allocate p size).0
step p (writes h bytes size sequence timestamp references) =
    (write_and_publish p h bytes size sequence timestamp references).0
step p (publishes h size sequence timestamp references) =
    (publish_loaned p h size sequence timestamp references).0
step p (adds_reference h) = (add_reference p h).0
step p (releases h) = (release p h).0
step p (reclaims h) = (reclaim p h).0
step p (cancels h) = (cancel p h).0

unfoldable pub run : MemoryPool → List Call → MemoryPool
unfolding step
run p [] = p
run p (c ∷ cs) = run (step p c) cs

pub step-IsValid : {p : MemoryPool} (c : Call) → IsValid p → IsValid (step p c)
unfolding step
step-IsValid (allocates size) v = allocate-IsValid size v
step-IsValid (writes h bytes size sequence timestamp references) v =
    write_and_publish-IsValid h v bytes size sequence timestamp references
step-IsValid (publishes h size sequence timestamp references) v =
    publish_loaned-IsValid h v size sequence timestamp references
step-IsValid (adds_reference h) v = add_reference-IsValid h v
step-IsValid (releases h) v = release-IsValid h v
step-IsValid (reclaims h) v = reclaim-IsValid h v
step-IsValid (cancels h) v = cancel-IsValid h v

-- On a pool that satisfies the invariant, after any sequence of calls, with any handles, a free chunk stands exactly once in the free list of
-- its class and nothing else stands there, and a chunk is referenced exactly while it is published.
pub run-IsValid : (cs : List Call) {p : MemoryPool} → IsValid p → IsValid (run p cs)
unfolding run
run-IsValid [] v = v
run-IsValid (c ∷ cs) v = run-IsValid cs (step-IsValid c v)
