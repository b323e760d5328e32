-- ===== src/Queue/Setup.antt =====
-- The life of a queue's segment: `requiredSegmentSize`, `validateDescriptor`, `create`, `open`,
-- `recoverAndClose`, `close`, `detach` and `stats`, subscriber_queue.cpp. `header_size` is
-- `sizeof(SubscriberQueueHeader)`, which the platform's mutex and condition variable decide.
use cpp_robot_middleware.Prelude.{
  ℕ, ◌+◌, ◌-◌, ◌*◌, ◌/◌, ◌%◌, ◌^◌, Bool, false, ◌||◌, ◌&&◌, not, Option, none, some, replicate, ltb,
  ◌==◌, ◌!=◌, if◌then◌else◌, u32_max, u64_max, inc64,
}
use cpp_robot_middleware.ErrorCode.{
  ErrorCode, ok, invalid_shared_memory, shared_memory_error, queue_closed,
}
use cpp_robot_middleware.Handle.{no_handle}
use cpp_robot_middleware.Wire.{is_valid_shared_memory_name}
use cpp_robot_middleware.QueueProtocol.{
  QueueDescriptor, queue_layout_version, valid_overflow_policy,
}
use cpp_robot_middleware.Queue.{Queue, max_depth, ring_invariants_hold}
use cpp_robot_middleware.Queue.Lock.{LockOutcome, lock}

-- `kSubscriberQueueMagic`
abbrev pub queue_magic : ℕ
queue_magic = 0x4D575151

-- `sizeof(ChunkHandle)`: two 64-bit and two 32-bit fields.
abbrev pub slot_size : ℕ
slot_size = 24

-- The header's size, rounded up to a multiple of `alignof(ChunkHandle)`, which is 8.
abbrev pub slots_offset : ℕ → ℕ
slots_offset header_size = (header_size + 7) / 8 * 8

-- `none` is an exception.
unfoldable pub required_segment_size : ℕ → ℕ → Option ℕ
required_segment_size header_size capacity =
    let slot_bytes = capacity * slot_size in
    if capacity == 0 || ltb max_depth capacity
    then none
    else if ltb (u64_max / capacity) slot_size
        || ltb (u64_max - slot_bytes) (slots_offset header_size)
    then none
    else some (slots_offset header_size + slot_bytes)

-- The segment size is compared with an answer that may be an exception too.
abbrev pub is_size : Option ℕ → ℕ → Bool
is_size none size = false
is_size (some required) size = size == required

unfoldable pub valid_descriptor : ℕ → QueueDescriptor → Bool
unfolding required_segment_size
valid_descriptor header_size d = not (
    not (is_valid_shared_memory_name d.shm_name)
    || d.queue_id == 0
    || d.layout_version != queue_layout_version
    || d.capacity == 0
    || ltb max_depth d.capacity
    || not (valid_overflow_policy d.overflow_policy)
    || d.block_timeout_ms == 0
    || not (is_size (required_segment_size header_size d.capacity) d.segment_size))

-- The header and the slots that `create` writes.
abbrev pub new_queue : ℕ → QueueDescriptor → Queue
new_queue header_size d = record {
  magic = queue_magic;
  version = queue_layout_version;
  header_size = header_size % 2 ^ 16;
  segment_size = d.segment_size;
  queue_id = d.queue_id;
  block_timeout_ms = d.block_timeout_ms;
  capacity = d.capacity;
  head = 0;
  tail = 0;
  size = 0;
  max_size = 0;
  attachment_count = 1;
  closed = 0;
  overflow_policy = d.overflow_policy;
  enqueued = 0;
  dequeued = 0;
  dropped_newest = 0;
  dropped_oldest = 0;
  block_timeouts = 0;
  blocked_count = 0;
  blocked_time_ns = 0;
  owner_death_recoveries = 0;
  peer_resets = 0;
  slots = replicate d.capacity no_handle;
}

-- `initialised` says whether every pthread call of the set-up succeeds; `none` is an exception.
unfoldable pub create : ℕ → Bool → QueueDescriptor → Option Queue
unfolding valid_descriptor
create header_size initialised d =
    if not (valid_descriptor header_size d)
    then none
    else if initialised
    then some (new_queue header_size d)
    else none

unfoldable pub immutable_header_matches : ℕ → Queue → QueueDescriptor → Bool
immutable_header_matches header_size q d =
    q.magic == queue_magic
    && q.version == queue_layout_version
    && q.header_size == header_size
    && q.segment_size == d.segment_size
    && q.queue_id == d.queue_id
    && q.block_timeout_ms == d.block_timeout_ms
    && q.capacity == d.capacity
    && q.overflow_policy == d.overflow_policy

-- `open` on the segment `q`, once it is mapped: the queue that it leaves and the error it throws.
unfoldable pub open_mapped : ℕ → LockOutcome → QueueDescriptor → Queue → Queue × ErrorCode
unfolding immutable_header_matches lock
open_mapped header_size mutex d q =
    let (q', locked) = lock mutex q in
    if not (immutable_header_matches header_size q d)
    then (q, invalid_shared_memory)
    else if not locked
    then (q', shared_memory_error)
    else if not (ring_invariants_hold q')
    then (q', invalid_shared_memory)
    else if q'.closed != 0 || q'.attachment_count == u32_max
    then (q', queue_closed)
    else (record q' { attachment_count = q'.attachment_count + 1 }, ok)

-- `recoverAndClose` on the segment `q`, once the descriptor is valid and the segment mapped.
unfoldable pub recover_and_close_mapped :
    ℕ → LockOutcome → QueueDescriptor → Queue → Queue × ErrorCode
unfolding immutable_header_matches lock
recover_and_close_mapped header_size mutex d q =
    let (q', locked) = lock mutex q in
    if not (immutable_header_matches header_size q d)
    then (q, invalid_shared_memory)
    else if not locked
    then (q', shared_memory_error)
    else (
      record q' { head = 0; tail = 0; size = 0; closed = 1; peer_resets = inc64 q'.peer_resets },
      ok,
    )

-- `close`, with the object's `attached_`.
unfoldable pub close : Bool → LockOutcome → Queue → Queue
unfolding lock
close attached mutex q =
    let (q', locked) = lock mutex q in
    if not attached then q else if not locked then q' else record q' { closed = 1 }

-- `detach`: the queue, and whether the mutex and the condition variable are destroyed. `attached_` is
-- false after it.
unfoldable pub detach : Bool → LockOutcome → Queue → Queue × Bool
unfolding lock
detach attached mutex q =
    let (q', locked) = lock mutex q in
    if not attached
    then (q, false)
    else if not locked || q'.attachment_count == 0
    then (q', false)
    else (record q' { attachment_count = q'.attachment_count - 1 }, q'.attachment_count - 1 == 0)

pub record QueueStats : Type 0 where
  pub enqueued : ℕ
  pub dequeued : ℕ
  pub dropped_newest : ℕ
  pub dropped_oldest : ℕ
  pub block_timeouts : ℕ
  pub blocked_count : ℕ
  pub blocked_time_ns : ℕ
  pub owner_death_recoveries : ℕ
  pub peer_resets : ℕ
  pub current_size : ℕ
  pub max_size : ℕ

abbrev pub no_stats : QueueStats
no_stats = record {
  enqueued = 0;
  dequeued = 0;
  dropped_newest = 0;
  dropped_oldest = 0;
  block_timeouts = 0;
  blocked_count = 0;
  blocked_time_ns = 0;
  owner_death_recoveries = 0;
  peer_resets = 0;
  current_size = 0;
  max_size = 0;
}

unfoldable pub stats : LockOutcome → Queue → Queue × QueueStats
unfolding lock
stats mutex q =
    let (q', locked) = lock mutex q in
    (
      q',
      if locked
          then record {
            enqueued = q'.enqueued;
            dequeued = q'.dequeued;
            dropped_newest = q'.dropped_newest;
            dropped_oldest = q'.dropped_oldest;
            block_timeouts = q'.block_timeouts;
            blocked_count = q'.blocked_count;
            blocked_time_ns = q'.blocked_time_ns;
            owner_death_recoveries = q'.owner_death_recoveries;
            peer_resets = q'.peer_resets;
            current_size = q'.size;
            max_size = q'.max_size;
          }
          else no_stats,
    )
