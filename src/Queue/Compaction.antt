-- ===== src/Queue/Compaction.antt =====
-- The loop of `discardPool`, subscriber_queue.cpp, which compacts the ring in place.
use cpp_robot_middleware.Prelude.{
  ℕ, zero, suc, ◌+◌, ◌%◌, ◌≤◌, ◌<◌, ◌≡◌, inl, inr, refl, sym, ap, ap₂, ◌∙◌, true, false, [], ◌∷◌,
  ◌++◌, append_assoc, append-nil, length, length-set, set, select, get_or, arith, Bool-cases,
}
use cpp_robot_middleware.Handle.{ChunkHandle, no_handle}
use cpp_robot_middleware.Queue.{Queue, max_depth, slot}
use cpp_robot_middleware.Queue.Consume.{compact, kept_by, ring_index, discard_locked}
use cpp_robot_middleware.Queue.Invariant.{IsValid}
use cpp_robot_middleware.Queue.Window.{window, contents, window-set_ne, window-set_snoc}

-- Where a loop over the ring of `q` stands.
record Within (q : Queue) (index kept n : ℕ) : Type 0 where
  storage : length q.slots ≡ q.capacity
  depth : q.capacity ≤ max_depth
  head_in : q.head < q.capacity
  behind : kept ≤ index
  fits : index + n ≤ q.capacity

-- What the loop leaves: the handles kept so far, then those of the rest that pass.
record Compacted (pool_id n index kept : ℕ) (q : Queue) (out : Queue × ℕ) : Type 0 where
  bytes :
      window out.0.slots q.capacity q.head 0 out.1
      ≡ window q.slots q.capacity q.head 0 kept
        ++ select (kept_by pool_id) (window q.slots q.capacity q.head index n)
  count : out.1 ≤ kept + n
  same_head : out.0.head ≡ q.head
  same_capacity : out.0.capacity ≡ q.capacity
  same_length : length out.0.slots ≡ length q.slots

ring_index_lem :
    (q : Queue) (i : ℕ)
    → q.capacity ≤ max_depth
    → q.head < q.capacity
    → i < q.capacity
    → ring_index q i ≡ (q.head + i) % q.capacity
ring_index_lem q i d h k = ap (λ x. x % q.capacity) (omega arith)

-- Also for the count that the loop ends with, which may be the capacity.
ring_index_sum :
    (q : Queue) (i : ℕ)
    → q.capacity ≤ max_depth
    → q.head < q.capacity
    → i ≤ 0 + q.size
    → q.size ≤ q.capacity
    → ring_index q i ≡ (q.head + i) % q.capacity
ring_index_sum q i d h k m = ap (λ x. x % q.capacity) (omega arith)

-- The slot that the loop reads, by its offset.
slot-ring_index :
    (q : Queue) (i : ℕ) {index kept n : ℕ}
    → Within q index kept n
    → i < q.capacity
    → slot q (ring_index q i) ≡ get_or q.slots ((q.head + i) % q.capacity) no_handle
slot-ring_index q i w h =
    ap (λ k. get_or q.slots k no_handle) (ring_index_lem q i w.depth w.head_in h)

abbrev moved : Queue → ℕ → ChunkHandle → Queue
moved q kept h = record q { slots = set q.slots (ring_index q kept) h }

-- A handle that is kept goes right behind those kept before, and the rest stays to be read.
window-moved :
    (q : Queue) (index kept n : ℕ) (h : ChunkHandle)
    → Within q index kept (suc n)
    → (window (moved q kept h).slots q.capacity q.head 0 (suc kept)
        ≡ window q.slots q.capacity q.head 0 kept ++ (h ∷ []))
      × (window (moved q kept h).slots q.capacity q.head (suc index) n
          ≡ window q.slots q.capacity q.head (suc index) n)
window-moved q index kept n h w =
    let e = ring_index_lem q kept w.depth w.head_in (omega arith) in
    let here : ring_index q kept ≡ (q.head + (0 + kept)) % q.capacity =
      e ∙ ap (λ k. (q.head + k) % q.capacity) (omega arith) in
    (
      ap (λ k. window (set q.slots k h) q.capacity q.head 0 (suc kept)) here
          ∙ window-set_snoc q.slots q.capacity q.head 0 kept h (omega arith) w.head_in
              (omega arith),
      ap (λ k. window (set q.slots k h) q.capacity q.head (suc index) n) e
          ∙ window-set_ne q.slots q.capacity q.head (suc index) n kept h w.head_in (omega arith)
              (omega arith) (inl (omega arith)),
    )

Within-moved :
    (q : Queue) (index kept n : ℕ) (h : ChunkHandle)
    → Within q index kept (suc n)
    → Within (moved q kept h) (suc index) (suc kept) n
Within-moved q index kept n h w = record {
  storage = length-set q.slots (ring_index q kept) h ∙ w.storage;
  depth = w.depth;
  head_in = w.head_in;
  behind = omega arith;
  fits = omega arith;
}

Within-skipped :
    (q : Queue) (index kept n : ℕ) → Within q index kept (suc n) → Within q (suc index) kept n
Within-skipped q index kept n w = record {
  storage = w.storage;
  depth = w.depth;
  head_in = w.head_in;
  behind = omega arith;
  fits = omega arith;
}

-- A round whose handle is kept.
Compacted-kept :
    (pool_id n index kept : ℕ) (q : Queue) (h : ChunkHandle) (out : Queue × ℕ)
    → Within q index kept (suc n)
    → h ≡ get_or q.slots ((q.head + index) % q.capacity) no_handle
    → kept_by pool_id h ≡ true
    → Compacted pool_id n (suc index) (suc kept) (moved q kept h) out
    → Compacted pool_id (suc n) index kept q out
Compacted-kept pool_id n index kept q h out w e t c = record {
  bytes =
      c.bytes
      ∙ ap₂ (λ front rest. front ++ select (kept_by pool_id) rest)
          (window-moved q index kept n h w).0 (window-moved q index kept n h w).1
      ∙ append_assoc (window q.slots q.capacity q.head 0 kept) (h ∷ []) _
      ∙ rw (← e, t);
  count = omega (arith, c.count);
  same_head = c.same_head;
  same_capacity = c.same_capacity;
  same_length = c.same_length ∙ length-set q.slots (ring_index q kept) h;
}

-- A round whose handle is dropped.
Compacted-dropped :
    (pool_id n index kept : ℕ) (q : Queue) (out : Queue × ℕ)
    → kept_by pool_id (get_or q.slots ((q.head + index) % q.capacity) no_handle) ≡ false
    → Compacted pool_id n (suc index) kept q out
    → Compacted pool_id (suc n) index kept q out
Compacted-dropped pool_id n index kept q out t c = record {
  bytes = c.bytes ∙ rw t;
  count = omega (arith, c.count);
  same_head = c.same_head;
  same_capacity = c.same_capacity;
  same_length = c.same_length;
}

compact-Compacted :
    (pool_id n index kept : ℕ) (q : Queue)
    → Within q index kept n
    → Compacted pool_id n index kept q (compact pool_id n index kept q)
unfolding compact
compact-Compacted pool_id zero index kept q w = record {
  bytes = sym (append-nil _);
  count = omega arith;
  same_head = refl;
  same_capacity = refl;
  same_length = refl;
}
compact-Compacted pool_id (suc n) index kept q w =
    let h = slot q (ring_index q index) in
    let e = slot-ring_index q index w (omega arith) in
    elim (Bool-cases (kept_by pool_id h)) [
      | inl t ↦ rw t (
          Compacted-kept pool_id n index kept q h _ w e t (
            compact-Compacted pool_id n (suc index) (suc kept) (moved q kept h)
              (Within-moved q index kept n h w)))
      | inr t ↦ rw t (
          Compacted-dropped pool_id n index kept q _ (rw e at t)
            (compact-Compacted pool_id n (suc index) kept q (Within-skipped q index kept n w)))
    ]

-- On a valid ring `discardPool` under the mutex keeps the ring valid and leaves exactly the handles of other pools, in their order;
-- for the pool number 0 it leaves none.
pub discard_locked_lem :
    (pool_id : ℕ) {q : Queue}
    → IsValid q
    → IsValid (discard_locked pool_id q)
      × (contents (discard_locked pool_id q) ≡ select (kept_by pool_id) (contents q))
unfolding discard_locked
discard_locked_lem pool_id {q} v =
    let w : Within q 0 0 q.size = record {
      storage = v.storage;
      depth = v.depth;
      head_in = v.head_in;
      behind = omega arith;
      fits = omega arith;
    } in
    let c = compact-Compacted pool_id q.size 0 0 q w in
    (
      record {
        storage = c.same_length ∙ v.storage ∙ sym c.same_capacity;
        depth = omega (arith, c.same_capacity, v.depth);
        head_in = omega (arith, c.same_capacity, v.head_in);
        size_in = omega (arith, c.same_capacity, c.count, v.size_in);
        tail_at =
            ring_index_sum q _ v.depth v.head_in c.count v.size_in
            ∙ ap (λ k. (q.head + (compact pool_id q.size 0 0 q).1) % k) (sym c.same_capacity);
      },
      ap
            (λ k.
              window (compact pool_id q.size 0 0 q).0.slots k q.head 0
                (compact pool_id q.size 0 0 q).1)
            c.same_capacity
          ∙ c.bytes,
    )
