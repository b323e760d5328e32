-- ===== src/Queue/Opening.antt =====
-- What `create` makes of a queue's segment, and when `open` attaches to it.
use cpp_robot_middleware.Prelude.{
  ℕ, ◌^◌, ◌<◌, ◌≤◌, ◌≡◌, ◌≢◌, inl, inr, refl, Bool, true, [], some, length-replicate, u32_max,
  arith, Bool-cases,
}
use cpp_robot_middleware.ErrorCode.{ok}
use cpp_robot_middleware.Handle.{no_handle}
use cpp_robot_middleware.QueueProtocol.{QueueDescriptor}
use cpp_robot_middleware.Queue.{Queue, max_depth}
use cpp_robot_middleware.Queue.Lock.{acquired}
use cpp_robot_middleware.Queue.Setup.{
  create, new_queue, valid_descriptor, immutable_header_matches, open_mapped,
}
use cpp_robot_middleware.Queue.Invariant.{IsValid, IsValid-ring_invariants_hold}
use cpp_robot_middleware.Queue.Window.{contents}

-- What a descriptor that passes the checks says of the depth.
valid_descriptor-depth :
    (header_size : ℕ) (d : QueueDescriptor)
    → valid_descriptor header_size d ≡ true
    → (d.capacity ≢ 0) × (d.capacity ≤ max_depth)
unfolding valid_descriptor
valid_descriptor-depth header_size d h = ground arith

create-new_queue :
    (header_size : ℕ) (initialised : Bool) (d : QueueDescriptor) {q : Queue}
    → create header_size initialised d ≡ some q
    → (valid_descriptor header_size d ≡ true) × (new_queue header_size d ≡ q)
unfolding create
create-new_queue header_size initialised d h = elim (Bool-cases (valid_descriptor header_size d)) [
  | inr t ↦ (let none_made = rw t at h in cc)
  | inl t ↦ elim (Bool-cases initialised) [
    | inl u ↦ (let some_made = rw (t, u) at h in (t, cc))
    | inr u ↦ (let none_made = rw (t, u) at h in cc)
  ]
]

new_queue-IsValid :
    (header_size : ℕ) (d : QueueDescriptor)
    → d.capacity ≢ 0
    → d.capacity ≤ max_depth
    → IsValid (new_queue header_size d)
new_queue-IsValid header_size d some_depth depth = record {
  storage = length-replicate d.capacity no_handle;
  depth = depth;
  head_in = omega arith;
  size_in = omega arith;
  tail_at = ground arith;
}

new_queue-matches :
    (header_size : ℕ) (d : QueueDescriptor)
    → header_size < 2 ^ 16
    → immutable_header_matches header_size (new_queue header_size d) d ≡ true
unfolding immutable_header_matches
new_queue-matches header_size d small = ground arith

-- A queue that `create` returns is a valid empty ring, and `open` with the same descriptor attaches to
-- it. The header takes less than 2 ^ 16 bytes, as the source asserts.
pub create-open :
    (header_size : ℕ) (initialised : Bool) (d : QueueDescriptor) (q : Queue)
    → header_size < 2 ^ 16
    → create header_size initialised d ≡ some q
    → IsValid q
      × (contents q ≡ [])
      × (open_mapped header_size acquired d q ≡ (record q { attachment_count = 2 }, ok))
unfolding open_mapped
create-open header_size initialised d q small made =
    let (checked, is_new) = create-new_queue header_size initialised d made in
    let (some_depth, depth) = valid_descriptor-depth header_size d checked in
    let v = new_queue-IsValid header_size d some_depth depth in
    rw (← is_new)
      (v, refl, rw (new_queue-matches header_size d small, IsValid-ring_invariants_hold v) refl)

-- What `open` asks of the segment and of the queue `q'` that it has locked.
pub record Attachable (header_size : ℕ) (d : QueueDescriptor) (q q' : Queue) : Type 0 where
  pub magic : q.magic ≡ 0x4D575151
  pub version : q.version ≡ 3
  pub header : q.header_size ≡ header_size
  pub segment : q.segment_size ≡ d.segment_size
  pub queue : q.queue_id ≡ d.queue_id
  pub timeout : q.block_timeout_ms ≡ d.block_timeout_ms
  pub depth : q.capacity ≡ d.capacity
  pub policy : q.overflow_policy ≡ d.overflow_policy
  pub some_depth : q'.capacity ≢ 0
  pub head_in : q'.head < q'.capacity
  pub tail_in : q'.tail < q'.capacity
  pub size_in : q'.size ≤ q'.capacity
  pub still_open : q'.closed ≡ 0
  pub room : q'.attachment_count ≢ u32_max
