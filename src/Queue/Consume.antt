-- ===== src/Queue/Consume.antt =====
-- The consumer's side of the queue and what empties it: `tryDequeue`, `peek`, `drain`,
-- `closeAndDrain` and `discardPool`, subscriber_queue.cpp.
use cpp_robot_middleware.Prelude.{
  ℕ, zero, suc, ◌+◌, ◌%◌, ◌^◌, Bool, ◌&&◌, List, [], ◌∷◌, Option, none, some, set, ◌==◌, ◌!=◌,
  if◌then◌else◌, dec32, inc64,
}
use cpp_robot_middleware.Handle.{ChunkHandle}
use cpp_robot_middleware.Queue.{Queue, slot, next_index}
use cpp_robot_middleware.Queue.Lock.{LockOutcome, lock}

unfoldable pub dequeue_locked : Queue → Queue × Option ChunkHandle
dequeue_locked q = if q.size == 0 then (q, none) else (
  record q { head = next_index q q.head; size = dec32 q.size; dequeued = inc64 q.dequeued },
  some (slot q q.head),
)

unfoldable pub try_dequeue : LockOutcome → Queue → Queue × Option ChunkHandle
unfolding lock dequeue_locked
try_dequeue mutex q =
    let (q', locked) = lock mutex q in if locked then dequeue_locked q' else (q', none)

unfoldable pub peek : LockOutcome → Queue → Queue × Option ChunkHandle
unfolding lock
peek mutex q =
    let (q', locked) = lock mutex q in
    (q', if locked then if q'.size == 0 then none else some (slot q' q'.head) else none)

-- `while (size != 0)`: the handles and the head where the loop stops. It runs `size` times.
unfoldable pub drain_from : Queue → ℕ → ℕ → List ChunkHandle × ℕ
drain_from q head zero = ([], head)
drain_from q head (suc n) =
    let (handles, stop) = drain_from q (next_index q head) n in (slot q head ∷ handles, stop)

unfoldable pub drain_locked : Queue → Queue × List ChunkHandle
unfolding drain_from
drain_locked q =
    let (handles, stop) = drain_from q q.head q.size in
    (record q { head = stop; size = 0; tail = stop }, handles)

-- `none` is the exception for a mutex that cannot be locked.
unfoldable pub drain : LockOutcome → Queue → Queue × Option (List ChunkHandle)
unfolding lock drain_locked
drain mutex q =
    let (q', locked) = lock mutex q in
    let (rest, handles) = drain_locked q' in if locked then (rest, some handles) else (q', none)

unfoldable pub close_and_drain : LockOutcome → Queue → Queue × Option (List ChunkHandle)
unfolding lock drain_locked
close_and_drain mutex q =
    let (q', locked) = lock mutex q in
    let (rest, handles) = drain_locked (record q' { closed = 1 }) in
    if locked then (rest, some handles) else (q', none)

-- The test of the loop of `discardPool`: 0 stands for every pool.
abbrev pub kept_by : ℕ → ChunkHandle → Bool
kept_by pool_id h = pool_id != 0 && h.pool_id != pool_id

-- `(original_head + index) % capacity`, in 32-bit arithmetic.
abbrev pub ring_index : Queue → ℕ → ℕ
ring_index q i = (q.head + i) % 2 ^ 32 % q.capacity

-- `for (index = ...; index < original_size; ++index)`, with the number of rounds left, `index` and
-- `kept`. `q` is the queue whose slots the loop rewrites; its head stays.
unfoldable pub compact : ℕ → ℕ → ℕ → ℕ → Queue → Queue × ℕ
compact pool_id zero index kept q = (q, kept)
compact pool_id (suc n) index kept q =
    let h = slot q (ring_index q index) in
    let moved = record q { slots = set q.slots (ring_index q kept) h } in
    compact pool_id n (suc index) (if kept_by pool_id h then suc kept else kept)
      (if kept_by pool_id h then moved else q)

unfoldable pub discard_locked : ℕ → Queue → Queue
unfolding compact
discard_locked pool_id q =
    let (q', kept) = compact pool_id q.size 0 0 q in
    record q' {
      head = q.head;
      tail = ring_index q kept;
      size = kept;
      peer_resets = inc64 q.peer_resets;
    }

unfoldable pub discard_pool : LockOutcome → ℕ → Queue → Queue
unfolding lock discard_locked
discard_pool mutex pool_id q =
    let (q', locked) = lock mutex q in if locked then discard_locked pool_id q' else q'
