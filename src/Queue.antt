-- ===== src/Queue.antt =====
-- The shared subscriber queue, middleware/src/detail/subscriber_queue.hpp and
-- subscriber_queue.cpp. The header in shared memory and its slots are one value, and every
-- operation returns the value that it leaves behind.
pub mod Lock
pub mod Clock
pub mod Enqueue
pub mod Consume
pub mod Setup
pub mod Opening
pub mod Closing
pub mod Invariant
pub mod Window
pub mod Blocking
pub mod Delivery
pub mod Compaction
pub mod Fifo
pub mod Contents
pub mod Refinement
mod Tests
use cpp_robot_middleware.Prelude.{
  ℕ, zero, suc, ◌+◌, ◌%◌, ◌^◌, ◌<◌, ◌≤◌, Bool, true, false, ◌&&◌, List, get_or, set, ltb, leb, ◌!=◌,
  inc32, inc64,
}
use cpp_robot_middleware.Handle.{ChunkHandle, no_handle}

-- `struct SubscriberQueueHeader` with the slots behind it. The mutex and the condition variable
-- are the `LockOutcome` and `Wait` arguments of the operations.
pub record Queue : Type 0 where
  pub magic : ℕ
  pub version : ℕ
  pub header_size : ℕ
  pub segment_size : ℕ
  pub queue_id : ℕ
  pub block_timeout_ms : ℕ
  pub capacity : ℕ
  pub head : ℕ
  pub tail : ℕ
  pub size : ℕ
  pub max_size : ℕ
  pub attachment_count : ℕ
  pub closed : ℕ
  pub overflow_policy : ℕ
  pub enqueued : ℕ
  pub dequeued : ℕ
  pub dropped_newest : ℕ
  pub dropped_oldest : ℕ
  pub block_timeouts : ℕ
  pub blocked_count : ℕ
  pub blocked_time_ns : ℕ
  pub owner_death_recoveries : ℕ
  pub peer_resets : ℕ
  pub slots : List ChunkHandle

-- `kMaxSubscriberQueueDepth`
abbrev pub max_depth : ℕ
max_depth = 65536

-- `slots()[index]`. An index out of range reads the default handle; the invariant excludes it.
abbrev pub slot : Queue → ℕ → ChunkHandle
slot q i = get_or q.slots i no_handle

-- `(index + 1U) % capacity`, in 32-bit arithmetic.
abbrev pub next_index : Queue → ℕ → ℕ
next_index q i = inc32 i % q.capacity

unfoldable pub ring_invariants_hold : Queue → Bool
ring_invariants_hold q =
    q.capacity != 0 && ltb q.head q.capacity && ltb q.tail q.capacity && leb q.size q.capacity
