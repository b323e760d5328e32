-- ===== src/Pool/Handles.antt =====
-- The handles that `allocate` gives, and older handles of the same chunk.
use cpp_robot_middleware.Prelude.{
  ℕ, suc, ◌^◌, ◌<◌, ◌≤◌, ◌≡◌, ◌≢◌, refl, sym, ap, subst, ◌∙◌, true, false, List, [], ◌∷◌, length,
  some, length-set, get_or-set_self, arith, replicate, ◌++◌, inl, inr,
}
use cpp_robot_middleware.ErrorCode.{ErrorCode, ok}
use cpp_robot_middleware.Handle.{ChunkHandle}
use cpp_robot_middleware.Pool.{MemoryPool, is_loaned, chunk_header, no_chunk, known, handle_matches}
use cpp_robot_middleware.Pool.Allocate.{allocate, find_class, next_generation, loan_header}
use cpp_robot_middleware.Pool.Allocation.{allocate-cases, Taken, taken, find_class-le}
use cpp_robot_middleware.Pool.Publish.{publish_loaned, publish_locked, publish_header}
use cpp_robot_middleware.Pool.Release.{reclaim}
use cpp_robot_middleware.Pool.Invariant.{IsValid}
use cpp_robot_middleware.Pool.References.{Held, release_times, release_times-Held}
use cpp_robot_middleware.Pool.Preservation.{allocate-IsValid, known-inside}

next_generation-ne : (g : ℕ) → next_generation g ≢ g
next_generation-ne g = ground arith

-- What a loan's handle is good for.
pub record Loan (q : MemoryPool) (h : ChunkHandle) (size : ℕ) : Type 0 where
  pub known_handle : known q h ≡ true
  pub is_loan : is_loaned (chunk_header q h.chunk_index).state ≡ true
  pub size_recorded : (chunk_header q h.chunk_index).payload_size ≡ size
  pub fits : size ≤ (chunk_header q h.chunk_index).capacity

module _ {p : MemoryPool} (v : IsValid p) (size : ℕ) where
  taken-Loan :
      {c i : ℕ} {rest : List ℕ}
      → find_class p.size_classes size ≡ some c
      → Taken p c i rest
      → size < 2 ^ 32
      → Loan (taken p size c i rest).0 (taken p size c i rest).1.handle size
  unfolding known handle_matches
  taken-Loan {c} {i} {rest} found t small =
      let same =
        get_or-set_self p.chunks i (loan_header (chunk_header p i) size) no_chunk t.inside in
      record {
        known_handle = rw same (ground (arith, v.sizes, t.inside));
        is_loan = rw same refl;
        size_recorded = rw same (omega arith);
        fits =
            rw (same, v.class_capacity i t.inside, t.own_class)
              (find_class-le p.size_classes size found);
      }

  -- An older handle of the chunk no longer names it.
  taken-stale :
      {c i : ℕ} {rest : List ℕ} (old : ChunkHandle)
      → Taken p c i rest
      → old.chunk_index ≡ i
      → known p old ≡ true
      → known (taken p size c i rest).0 old ≡ false
  unfolding known handle_matches
  taken-stale {c} {i} {rest} old t at k =
      let same =
        get_or-set_self p.chunks i (loan_header (chunk_header p i) size) no_chunk t.inside in
      rw (at, same) (ground (arith, next_generation-ne (chunk_header p i).generation))

ok_only : {e e' : ErrorCode} → e ≡ e' → e ≡ ok → e' ≡ ok
ok_only f g = sym f ∙ g

-- When `allocate` succeeds on a valid pool, its handle is known, names a LOANED chunk that records the
-- requested size, and the chunk's capacity is at least that size, which is below 2 ^ 32.
pub allocate-Loan :
    (p : MemoryPool) (size : ℕ)
    → IsValid p
    → size < 2 ^ 32
    → (allocate p size).1.error ≡ ok
    → Loan (allocate p size).0 (allocate p size).1.handle size
allocate-Loan p size v small good = elim (allocate-cases size v) [
  | inl (_, e) ↦ (let bad = ok_only (ap (λ o. o.1.error) e) good in cc)
  | inr (c, f, inl (_, e)) ↦ (let bad = ok_only (ap (λ o. o.1.error) e) good in cc)
  | inr (c, f, inr (i, rest, t, e)) ↦
      subst (λ o. Loan o.0 o.1.handle size) (sym e) (taken-Loan v size f t small)
]

-- When `allocate` succeeds on a valid pool, a handle of the same chunk that was known before is not
-- known any more.
pub allocate-stale :
    (p : MemoryPool) (size : ℕ) (old : ChunkHandle)
    → IsValid p
    → (allocate p size).1.error ≡ ok
    → old.chunk_index ≡ (allocate p size).1.handle.chunk_index
    → known p old ≡ true
    → known (allocate p size).0 old ≡ false
allocate-stale p size old v good at k = elim (allocate-cases size v) [
  | inl (_, e) ↦ (let bad = ok_only (ap (λ o. o.1.error) e) good in cc)
  | inr (c, f, inl (_, e)) ↦ (let bad = ok_only (ap (λ o. o.1.error) e) good in cc)
  | inr (c, f, inr (i, rest, t, e)) ↦
      subst (λ o. known o.0 old ≡ false) (sym e)
        (taken-stale v size old t (at ∙ ap (λ o. o.1.handle.chunk_index) e) k)
]

-- A publication of a loan with its size, a sequence that is not 0 and at least one reference is
-- accepted, and the handle then holds all the references.
publish_loaned-Held :
    (q : MemoryPool) (h : ChunkHandle) {size : ℕ} (sequence timestamp n : ℕ)
    → Loan q h size
    → h.chunk_index < length q.chunks
    → sequence ≢ 0
    → ((publish_loaned q h size sequence timestamp (suc n)).1 ≡ ok)
      × Held (publish_loaned q h size sequence timestamp (suc n)).0 h (suc n)
unfolding publish_loaned publish_locked known handle_matches
publish_loaned-Held q h {size} sequence timestamp n l inside numbered =
    let same =
      get_or-set_self q.chunks h.chunk_index
        (publish_header (chunk_header q h.chunk_index) sequence timestamp (suc n)) no_chunk
        inside in
    let accepted : publish_locked q h size sequence (suc n) ≡ ok = ground (arith, l) in
    rw accepted (
      refl,
      record {
        known_handle = rw same l.known_handle;
        inside = omega (
          arith,
          inside,
          length-set q.chunks h.chunk_index
              (publish_header (chunk_header q h.chunk_index) sequence timestamp (suc n)),
        );
        state_is = rw same refl;
        references = rw same refl;
      },
    )

-- On a valid pool, when `allocate` succeeds for a size below 2 ^ 32, publishing its handle with that
-- size, a sequence that is not 0 and n + 1 references is accepted. Of the n + 1 releases then, the
-- last and no other reports that the chunk became RELEASED, and the chunk can be reclaimed after it.
pub loan_cycle :
    (p : MemoryPool) (size sequence timestamp n : ℕ)
    → IsValid p
    → size < 2 ^ 32
    → (allocate p size).1.error ≡ ok
    → sequence ≢ 0
    → (let q = (allocate p size).0 in
        let h = (allocate p size).1.handle in
        let r = publish_loaned q h size sequence timestamp (suc n) in
        let out = release_times (suc n) r.0 h in
        (r.1 ≡ ok) × (out.1 ≡ replicate n false ++ (true ∷ [])) × ((reclaim out.0 h).1 ≡ ok))
unfolding reclaim
loan_cycle p size sequence timestamp n v small good numbered =
    let h = (allocate p size).1.handle in
    let l = allocate-Loan p size v small good in
    let inside = known-inside h (allocate-IsValid size v) l.known_handle in
    let held = publish_loaned-Held (allocate p size).0 h sequence timestamp n l inside numbered in
    let done =
      release_times-Held n (publish_loaned (allocate p size).0 h size sequence timestamp (suc n)).0
        h held.1 in
    (held.0, done.0, rw (done.3, done.1, done.2) refl)
