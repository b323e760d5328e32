-- ===== src/Pool/Lifecycle.antt =====
-- The life of a chunk: FREE, LOANED, PUBLISHED, RELEASED and FREE again, or back from LOANED.
use cpp_robot_middleware.Prelude.{
  ℕ, ◌-◌, ◌<◌, ◌≡◌, refl, ap, true, length, set, get_or-set_self, get_or-set_ne, arith, ℕ_discrete,
  ◌==◌, Bool-cases, inl, inr,
}
use cpp_robot_middleware.Handle.{ChunkHandle}
use cpp_robot_middleware.Pool.{
  MemoryPool, ChunkHeader, ChunkState, free, loaned, published, released, is_free, is_loaned,
  is_published, is_released, chunk_header, no_chunk,
}
use cpp_robot_middleware.Pool.Invariant.{IsValid}
use cpp_robot_middleware.Pool.Allocate.{allocate}
use cpp_robot_middleware.Pool.Allocation.{allocate-cases}
use cpp_robot_middleware.Pool.Publish.{write_and_publish, publish_loaned}
use cpp_robot_middleware.Pool.Release.{add_reference, release, reclaim, cancel, release_header}
use cpp_robot_middleware.Pool.Cases.{
  add_reference-cases, release-cases, reclaim-cases, cancel-cases, publish_loaned-cases,
  write_and_publish-cases, Publishable,
}
use cpp_robot_middleware.Pool.Preservation.{
  Call, allocates, writes, publishes, adds_reference, releases, reclaims, cancels, step,
  known-inside,
}

-- The edges of the life cycle, and no change.
pub data Edge (s t : ChunkState) : Type 0 where
  keep : t ≡ s → Edge s t
  loan : s ≡ free → t ≡ loaned → Edge s t
  publish : s ≡ loaned → t ≡ published → Edge s t
  cancelled : s ≡ loaned → t ≡ free → Edge s t
  last_release : s ≡ published → t ≡ released → Edge s t
  recycle : s ≡ released → t ≡ free → Edge s t

free_of : (s : ChunkState) → is_free s ≡ true → s ≡ free
free_of s h = ground arith

loaned_of : (s : ChunkState) → is_loaned s ≡ true → s ≡ loaned
loaned_of s h = ground arith

published_of : (s : ChunkState) → is_published s ≡ true → s ≡ published
published_of s h = ground arith

released_of : (s : ChunkState) → is_released s ≡ true → s ≡ released
released_of s h = ground arith

-- Every chunk of `q` moved along an edge from its state in `p`.
abbrev pub Moves : MemoryPool → MemoryPool → Type 0
Moves p q = (j : ℕ) → Edge (chunk_header p j).state (chunk_header q j).state

same-Moves : (p q : MemoryPool) → q ≡ p → Moves p q
same-Moves p q e = λ j. keep (ap (λ r. (chunk_header r j).state) e)

-- One chunk moves, the others stay.
set-Moves :
    (p q : MemoryPool) (i : ℕ) (h : ChunkHeader)
    → i < length p.chunks
    → q.chunks ≡ set p.chunks i h
    → Edge (chunk_header p i).state h.state
    → Moves p q
set-Moves p q i h inside e edge j = elim (ℕ_discrete i j) [
  | yes same ↦ rw (e, ← same, get_or-set_self p.chunks i h no_chunk inside) edge
  | no other ↦ keep (rw (e, get_or-set_ne p.chunks h no_chunk other))
]

release-Edge :
    (h : ChunkHeader) → is_published h.state ≡ true → Edge h.state (release_header h).state
release-Edge h e = elim (Bool-cases (h.ref_count - 1 == 0)) [
  | inl last ↦ rw last (last_release (published_of h.state e) refl)
  | inr more ↦ rw more (keep refl)
]

module _ {p : MemoryPool} (v : IsValid p) where
  allocate-Moves : (size : ℕ) → Moves p (allocate p size).0
  allocate-Moves size = elim (allocate-cases size v) [
    | inl (_, e) ↦ same-Moves p (allocate p size).0 (ap (λ o. o.0) e)
    | inr (c, f, inl (_, e)) ↦ λ j. keep (ap (λ o. (chunk_header o.0 j).state) e)
    | inr (c, f, inr (i, rest, t, e)) ↦
        set-Moves p (allocate p size).0 i _ t.inside (ap (λ o. o.0.chunks) e)
          (loan (free_of (chunk_header p i).state t.was_free) refl)
  ]

  Publishable-Edge :
      (h : ChunkHandle) {size sequence references : ℕ}
      → Publishable p h size sequence references
      → Edge (chunk_header p h.chunk_index).state published
  Publishable-Edge h c = publish (loaned_of _ c.is_loan) refl

  -- One call, on a valid pool and with any arguments, moves every chunk along an edge of the life
  -- cycle or leaves its state.
  pub step-Moves : (c : Call) → Moves p (step p c)
  unfolding step
  step-Moves (allocates size) = allocate-Moves size
  step-Moves (writes h bytes size sequence timestamp references) =
      elim (write_and_publish-cases p h bytes size sequence timestamp references) [
        | inl (e, _) ↦
            same-Moves p (write_and_publish p h bytes size sequence timestamp references).0 e
        | inr (c, e) ↦
            set-Moves p (write_and_publish p h bytes size sequence timestamp references).0
              h.chunk_index _ (known-inside h v c.known_handle) (ap (λ o. o.0.chunks) e)
              (Publishable-Edge h c)
      ]
  step-Moves (publishes h size sequence timestamp references) =
      elim (publish_loaned-cases p h size sequence timestamp references) [
        | inl (e, _) ↦ same-Moves p (publish_loaned p h size sequence timestamp references).0 e
        | inr (c, e) ↦
            set-Moves p (publish_loaned p h size sequence timestamp references).0 h.chunk_index _
              (known-inside h v c.known_handle) (ap (λ o. o.0.chunks) e) (Publishable-Edge h c)
      ]
  step-Moves (adds_reference h) = elim (add_reference-cases p h) [
    | inl (e, _) ↦ same-Moves p (add_reference p h).0 e
    | inr (k, s, _, _, e) ↦
        set-Moves p (add_reference p h).0 h.chunk_index _ (known-inside h v k)
          (ap (λ o. o.0.chunks) e) (keep refl)
  ]
  step-Moves (releases h) = elim (release-cases p h) [
    | inl (e, _, _) ↦ same-Moves p (release p h).0 e
    | inr (k, s, _, e) ↦
        set-Moves p (release p h).0 h.chunk_index _ (known-inside h v k) (ap (λ o. o.0.chunks) e)
          (release-Edge (chunk_header p h.chunk_index) s)
  ]
  step-Moves (reclaims h) = elim (reclaim-cases p h) [
    | inl (e, _) ↦ same-Moves p (reclaim p h).0 e
    | inr (k, s, _, e) ↦
        set-Moves p (reclaim p h).0 h.chunk_index _ (known-inside h v k) (ap (λ o. o.0.chunks) e)
          (recycle (released_of _ s) refl)
  ]
  step-Moves (cancels h) = elim (cancel-cases p h) [
    | inl (e, _) ↦ same-Moves p (cancel p h).0 e
    | inr (k, s, e) ↦
        set-Moves p (cancel p h).0 h.chunk_index _ (known-inside h v k) (ap (λ o. o.0.chunks) e)
          (cancelled (loaned_of _ s) refl)
  ]
