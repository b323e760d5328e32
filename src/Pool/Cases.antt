-- ===== src/Pool/Cases.antt =====
-- Each operation on a handle either refuses, with an error and no change, or passes all its checks
-- and does its stores. The proofs about the pool go by these two cases.
use cpp_robot_middleware.Prelude.{
  ℕ, ◌+◌, ◌-◌, ◌≤◌, ◌≡◌, ◌≢◌, ◌⊎◌, inl, inr, refl, true, false, ◌||◌, List, Option, none, some, set,
  arith, inc64, ◌==◌, ◌!=◌, ltb, if◌then◌else◌, Bool-cases, u32_max,
}
use cpp_robot_middleware.ErrorCode.{ErrorCode, ok}
use cpp_robot_middleware.Handle.{ChunkHandle}
use cpp_robot_middleware.Pool.{
  MemoryPool, ChunkHeader, free, is_loaned, is_published, is_released, chunk_header, known,
  set_chunk,
}
use cpp_robot_middleware.Pool.Publish.{
  publish_locked, write_and_publish, publish_loaned, mark_published, copy_in, is_ok,
}
use cpp_robot_middleware.Pool.Release.{
  add_reference, release, reclaim, cancel, release_header, give_back,
}

-- No change, and an error.
abbrev pub Refused : MemoryPool → MemoryPool × ErrorCode → Type 0
Refused p out = (out.0 ≡ p) × (out.1 ≢ ok)

not_ok : (e : ErrorCode) → e ≢ ok → is_ok e ≡ false
not_ok ok h = absurd (h refl)
not_ok _ h = refl

module _ (p : MemoryPool) (handle : ChunkHandle) where
  abbrev pub header : ChunkHeader
  header = chunk_header p handle.chunk_index

  pub add_reference-cases :
      Refused p (add_reference p handle)
      ⊎ ((known p handle ≡ true)
          × (is_published header.state ≡ true)
          × (header.ref_count ≢ 0)
          × (header.ref_count ≢ u32_max)
          × (add_reference p handle ≡ (
            set_chunk p handle.chunk_index (record header { ref_count = header.ref_count + 1 }),
            ok,
          )))
  unfolding add_reference
  add_reference-cases = elim (Bool-cases (known p handle)) [
    | inr k ↦ rw k (inl (refl, λ e. cc))
    | inl k ↦ rw k (elim (Bool-cases (is_published header.state)) [
      | inr s ↦ rw s (inl (refl, λ e. cc))
      | inl s ↦ rw s (elim (Bool-cases (header.ref_count == 0 || header.ref_count == u32_max)) [
        | inl r ↦ rw r (inl (refl, λ e. cc))
        | inr r ↦ rw r (inr (refl, refl, ground arith, ground arith, refl))
      ])
    ])
  ]

  pub release-cases :
      (((release p handle).0 ≡ p)
        × ((release p handle).1.error ≢ ok)
        × ((release p handle).1.became_released ≡ false))
      ⊎ ((known p handle ≡ true)
          × (is_published header.state ≡ true)
          × (header.ref_count ≢ 0)
          × (release p handle ≡ (
            record p {
              chunks = set p.chunks handle.chunk_index (release_header header);
              instrumentation = record p.instrumentation {
                releases = inc64 p.instrumentation.releases;
              };
            },
            record {
              error = ok;
              remaining_references = header.ref_count - 1;
              became_released = header.ref_count - 1 == 0;
            },
          )))
  unfolding release
  release-cases = elim (Bool-cases (known p handle)) [
    | inr k ↦ rw k (inl (refl, λ e. cc, refl))
    | inl k ↦ rw k (elim (Bool-cases (is_published header.state)) [
      | inr s ↦ rw s (inl (refl, λ e. cc, refl))
      | inl s ↦ rw s (elim (Bool-cases (header.ref_count == 0)) [
        | inl r ↦ rw r (inl (refl, λ e. cc, refl))
        | inr r ↦ rw r (inr (refl, refl, ground arith, refl))
      ])
    ])
  ]

  pub reclaim-cases :
      Refused p (reclaim p handle)
      ⊎ ((known p handle ≡ true)
          × (is_released header.state ≡ true)
          × (header.ref_count ≡ 0)
          × (reclaim p handle ≡ (
            give_back p handle.chunk_index (record header {
              payload_size = 0;
              sequence = 0;
              publish_timestamp_ns = 0;
              state = free;
            }),
            ok,
          )))
  unfolding reclaim
  reclaim-cases = elim (Bool-cases (known p handle)) [
    | inr k ↦ rw k (inl (refl, λ e. cc))
    | inl k ↦ rw k (elim (Bool-cases (is_released header.state)) [
      | inr s ↦ rw s (inl (refl, λ e. cc))
      | inl s ↦ rw s (elim (Bool-cases (header.ref_count != 0)) [
        | inl r ↦ rw r (inl (refl, λ e. cc))
        | inr r ↦ rw r (inr (refl, refl, ground arith, refl))
      ])
    ])
  ]

  pub cancel-cases :
      Refused p (cancel p handle)
      ⊎ ((known p handle ≡ true)
          × (is_loaned header.state ≡ true)
          × (cancel p handle ≡ (
            give_back p handle.chunk_index (record header { payload_size = 0; state = free }),
            ok,
          )))
  unfolding cancel
  cancel-cases = elim (Bool-cases (known p handle)) [
    | inr k ↦ rw k (inl (refl, λ e. cc))
    | inl k ↦ rw k (elim (Bool-cases (is_loaned header.state)) [
      | inr s ↦ rw s (inl (refl, λ e. cc))
      | inl s ↦ rw s (inr (refl, refl, refl))
    ])
  ]

  -- What a publication that passes has checked.
  pub record Publishable (payload_size sequence references : ℕ) : Type 0 where
    pub known_handle : known p handle ≡ true
    pub is_loan : is_loaned header.state ≡ true
    pub same_size : payload_size ≡ header.payload_size
    pub fits : payload_size ≤ header.capacity
    pub numbered : sequence ≢ 0
    pub referenced : references ≢ 0

  pub publish_locked-cases :
      (payload_size sequence references : ℕ)
      → (publish_locked p handle payload_size sequence references ≢ ok)
        ⊎ (Publishable payload_size sequence references
            × (publish_locked p handle payload_size sequence references ≡ ok))
  unfolding publish_locked
  publish_locked-cases payload_size sequence references =
      let bad =
        payload_size != header.payload_size
        || ltb header.capacity payload_size
        || sequence == 0
        || references == 0 in
      elim (Bool-cases (known p handle)) [
        | inr k ↦ rw k (inl (λ e. cc))
        | inl k ↦ rw k (elim (Bool-cases (is_loaned header.state)) [
          | inr s ↦ rw s (inl (λ e. cc))
          | inl s ↦ rw s (elim (Bool-cases bad) [
            | inl b ↦ rw b (inl (λ e. cc))
            | inr b ↦ rw b (
                inr (
                  record {
                    known_handle = k;
                    is_loan = s;
                    same_size = ground arith;
                    fits = ground arith;
                    numbered = ground arith;
                    referenced = ground arith;
                  },
                  refl,
                ))
          ])
        ])
      ]

  -- The payload bytes after a publication.
  abbrev pub copied : ℕ → Option (List ℕ) → ℕ → ℕ
  copied payload_size none = p.payload
  copied payload_size (some bytes) =
      if payload_size == 0 then p.payload else copy_in p.payload handle.payload_offset bytes

  pub publish_loaned-cases :
      (payload_size sequence timestamp references : ℕ)
      → Refused p (publish_loaned p handle payload_size sequence timestamp references)
        ⊎ (Publishable payload_size sequence references
            × (publish_loaned p handle payload_size sequence timestamp references
                ≡ (mark_published p handle sequence timestamp references, ok)))
  unfolding publish_loaned
  publish_loaned-cases payload_size sequence timestamp references =
      elim (publish_locked-cases payload_size sequence references) [
        | inl e ↦ rw (not_ok _ e) (inl (refl, e))
        | inr (c, e) ↦ rw e (inr (c, refl))
      ]

  pub write_and_publish-cases :
      (bytes : Option (List ℕ)) (payload_size sequence timestamp references : ℕ)
      → Refused p (write_and_publish p handle bytes payload_size sequence timestamp references)
        ⊎ (Publishable payload_size sequence references
            × (write_and_publish p handle bytes payload_size sequence timestamp references ≡ (
              record (mark_published p handle sequence timestamp references) {
                payload = copied payload_size bytes;
                instrumentation = record p.instrumentation {
                  payload_copies = inc64 p.instrumentation.payload_copies;
                };
              },
              ok,
            )))
  unfolding write_and_publish
  write_and_publish-cases none payload_size sequence timestamp references =
      elim (Bool-cases (payload_size != 0)) [
        | inl n ↦ rw n (inl (refl, λ e. cc))
        | inr z ↦ rw z (elim (publish_locked-cases payload_size sequence references) [
          | inl e ↦ rw (not_ok _ e) (inl (refl, e))
          | inr (c, e) ↦ rw e (inr (c, refl))
        ])
      ]
  write_and_publish-cases (some bytes) payload_size sequence timestamp references =
      elim (publish_locked-cases payload_size sequence references) [
        | inl e ↦ rw (not_ok _ e) (inl (refl, e))
        | inr (c, e) ↦ rw e (inr (c, refl))
      ]
