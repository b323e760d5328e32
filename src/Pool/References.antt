-- ===== src/Pool/References.antt =====
-- Reference counting: repeated releases of one chunk, memory_pool.cpp.
use cpp_robot_middleware.Prelude.{
  ℕ, zero, suc, ◌-◌, ◌<◌, ◌≡◌, refl, ap, Bool, true, false, List, [], ◌∷◌, ◌++◌, length, set,
  replicate, length-set, get_or-set_self, arith, ◌==◌, inc64,
}
use cpp_robot_middleware.ErrorCode.{ok, duplicate_release}
use cpp_robot_middleware.Handle.{ChunkHandle}
use cpp_robot_middleware.Pool.{
  MemoryPool, published, released, chunk_header, no_chunk, known, handle_matches,
}
use cpp_robot_middleware.Pool.Release.{release, release_header}

-- A handle that names a published chunk with `n` references.
pub record Held (p : MemoryPool) (h : ChunkHandle) (n : ℕ) : Type 0 where
  pub known_handle : known p h ≡ true
  pub inside : h.chunk_index < length p.chunks
  pub state_is : (chunk_header p h.chunk_index).state ≡ published
  pub references : (chunk_header p h.chunk_index).ref_count ≡ n

abbrev after_release : MemoryPool → ChunkHandle → MemoryPool
after_release p h = record p {
  chunks = set p.chunks h.chunk_index (release_header (chunk_header p h.chunk_index));
  instrumentation = record p.instrumentation { releases = inc64 p.instrumentation.releases };
}

release-Held :
    (p : MemoryPool) (h : ChunkHandle) (n : ℕ)
    → Held p h (suc n)
    → release p h ≡ (
      after_release p h,
      record { error = ok; remaining_references = n; became_released = n == 0 },
    )
unfolding release
release-Held p h n held =
    let e : suc n - 1 ≡ n = omega arith in
    let more : (suc n == 0) ≡ false = ground arith in
    rw (held.known_handle, held.state_is, held.references) (rw (e, more) refl)

-- The handle still names the chunk, with one reference less.
after_release-Held :
    (p : MemoryPool) (h : ChunkHandle) (n : ℕ)
    → Held p h (suc (suc n))
    → Held (after_release p h) h (suc n)
unfolding known handle_matches
after_release-Held p h n held =
    let same =
      get_or-set_self p.chunks h.chunk_index (release_header (chunk_header p h.chunk_index))
        no_chunk held.inside in
    record {
      known_handle = rw same held.known_handle;
      inside = omega (
        arith,
        length-set p.chunks h.chunk_index (release_header (chunk_header p h.chunk_index)),
        held.inside,
      );
      state_is = rw same (ground (arith, held.references, held.state_is));
      references = rw same (ground (arith, held.references));
    }

-- `n` releases of one handle, and whether each of them reported `became_released`.
unfoldable pub release_times : ℕ → MemoryPool → ChunkHandle → MemoryPool × List Bool
unfolding release
release_times zero p h = (p, [])
release_times (suc n) p h =
    let out = release p h in
    let rest = release_times n out.0 h in (rest.0, out.1.became_released ∷ rest.1)

-- Of the `n + 1` releases of a chunk that is published with `n + 1` references, the last reports that
-- the chunk became RELEASED and no other does; the chunk is RELEASED then,
-- without a reference, and the handle still names it.
pub release_times-Held :
    (n : ℕ) (p : MemoryPool) (h : ChunkHandle)
    → Held p h (suc n)
    → ((release_times (suc n) p h).1 ≡ replicate n false ++ (true ∷ []))
      × ((chunk_header (release_times (suc n) p h).0 h.chunk_index).state ≡ released)
      × ((chunk_header (release_times (suc n) p h).0 h.chunk_index).ref_count ≡ 0)
      × (known (release_times (suc n) p h).0 h ≡ true)
unfolding release_times known handle_matches
release_times-Held zero p h held =
    rw
      (
        release-Held p h 0 held,
        get_or-set_self p.chunks h.chunk_index (release_header (chunk_header p h.chunk_index))
            no_chunk held.inside,
      )
      (
        refl,
        ground (arith, held.references),
        ground (arith, held.references),
        ground (arith, held.known_handle),
      )
release_times-Held (suc n) p h held =
    let rest = release_times-Held n (after_release p h) h (after_release-Held p h n held) in
    let more : (suc n == 0) ≡ false = ground arith in
    rw (release-Held p h (suc n) held)
      (rw more (ap (λ l. false ∷ l) rest.0, rest.1, rest.2, rest.3))

-- A further release of the chunk is refused, and changes nothing.
pub release-duplicate :
    (p : MemoryPool) (h : ChunkHandle)
    → known p h ≡ true
    → (chunk_header p h.chunk_index).state ≡ released
    → release p h ≡ (
      p,
      record {
        error = duplicate_release;
        remaining_references = (chunk_header p h.chunk_index).ref_count;
        became_released = false;
      },
    )
unfolding release
release-duplicate p h k s = rw (k, s) refl
