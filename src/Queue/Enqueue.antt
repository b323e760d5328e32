-- ===== src/Queue/Enqueue.antt =====
-- `SharedSubscriberQueue::enqueue`, subscriber_queue.cpp.
use cpp_robot_middleware.Prelude.{
  ℕ, ◌-◌, Bool, true, false, not, ◌&&◌, List, [], ◌∷◌, Option, none, some, set, max, ◌==◌, ◌!=◌,
  if◌then◌else◌, inc32, dec32, inc64, dec64, add64,
}
use cpp_robot_middleware.ErrorCode.{drop_newest, drop_oldest}
use cpp_robot_middleware.Handle.{ChunkHandle}
use cpp_robot_middleware.Queue.{Queue, slot, next_index}
use cpp_robot_middleware.Queue.Lock.{LockOutcome, lock, reset_ring_after_owner_death}
use cpp_robot_middleware.Queue.Clock.{Timespec, elapsed_nanoseconds}

pub data EnqueueStatus : Type 0 where
  accepted dropped_newest timed_out closed notification_failed synchronization_error : EnqueueStatus

pub record EnqueueResult : Type 0 where
  pub status : EnqueueStatus
  pub dropped : Option ChunkHandle
  pub notification_sent : Bool
  pub blocked : Bool
  pub blocked_time_ns : ℕ

-- What ends one `pthread_cond_timedwait`: a wake-up, the deadline, a dead owner with the answer
-- of `pthread_mutex_consistent`, or another error.
pub data WaitError : Type 0 where
  woken deadline_passed failed : WaitError
  owner_dead : Bool → WaitError

-- One wait: what other processes did to the queue while the mutex was given up, how the wait
-- ended, and the clock read after it.
pub record Wait : Type 0 where
  pub others : Queue → Queue
  pub error : WaitError
  pub now : Timespec

-- How the loop that waits for room is left.
pub data WaitEnd : Type 0 where
  room_or_closed expired broken : WaitEnd

abbrev pub Looped : Type 0
Looped = Option (Queue × WaitEnd × Timespec)

-- The body of the loop after a wait: `again` is the loop from there on.
unfoldable pub wait_ended : WaitError → (Queue → Looped) → Timespec → Queue → Looped
unfolding reset_ring_after_owner_death
wait_ended woken again now q = again q
wait_ended deadline_passed again now q = some (q, expired, now)
wait_ended failed again now q = some (q, broken, now)
wait_ended (owner_dead true) again now q = again (reset_ring_after_owner_death q)
wait_ended (owner_dead false) again now q = some (reset_ring_after_owner_death q, broken, now)

-- `while (size == capacity && closed == 0)`. The list is the waits to come; `none` means that it
-- ended while the loop was still waiting.
unfoldable pub wait_for_room : List Wait → Timespec → Queue → Looped
unfolding wait_ended
wait_for_room [] now q =
    if q.size == q.capacity && q.closed == 0 then none else some (q, room_or_closed, now)
wait_for_room (w ∷ ws) now q =
    let waited = wait_ended w.error (wait_for_room ws w.now) w.now (w.others q) in
    if q.size == q.capacity && q.closed == 0 then waited else some (q, room_or_closed, now)

-- The store at the tail.
unfoldable pub store : ChunkHandle → Queue → Queue
store handle q = record q {
  slots = set q.slots q.tail handle;
  tail = next_index q q.tail;
  size = inc32 q.size;
  enqueued = inc64 q.enqueued;
  max_size = max q.max_size (inc32 q.size);
}

-- The rollback of a store whose wake-up message was not sent.
unfoldable pub unstore : Queue → Queue
unstore q = record q {
  tail = if q.tail == 0 then dec32 q.capacity else q.tail - 1;
  size = dec32 q.size;
  enqueued = dec64 q.enqueued;
}

-- The end of `enqueue`, from the store on. `notify` is `none` for a null callback, else what the
-- callback returns.
unfoldable pub finish :
    ChunkHandle → Option Bool → Bool → Option ChunkHandle → Bool → ℕ → Queue → Queue × EnqueueResult
unfolding store unstore
finish handle none needs dropped blocked ns q = (
  store handle q,
  record {
    status = accepted;
    dropped = dropped;
    notification_sent = false;
    blocked = blocked;
    blocked_time_ns = ns;
  },
)
finish handle (some sent) needs dropped blocked ns q =
    if needs && not sent
    then (
      unstore (store handle q),
      record {
        status = notification_failed;
        dropped = none;
        notification_sent = false;
        blocked = blocked;
        blocked_time_ns = ns;
      },
    )
    else (
      store handle q,
      record {
        status = accepted;
        dropped = dropped;
        notification_sent = needs;
        blocked = blocked;
        blocked_time_ns = ns;
      },
    )

-- DROP_OLDEST: the head is taken out.
unfoldable pub evict : Queue → Queue
evict q = record q {
  head = next_index q q.head;
  size = dec32 q.size;
  dropped_oldest = inc64 q.dropped_oldest;
}

abbrev pub refuse : EnqueueStatus → Bool → ℕ → EnqueueResult
refuse s blocked ns = record {
  status = s;
  dropped = none;
  notification_sent = false;
  blocked = blocked;
  blocked_time_ns = ns;
}

abbrev pub add_blocked_time : Queue → ℕ → Queue
add_blocked_time q ns = record q { blocked_time_ns = add64 q.blocked_time_ns ns }

-- The rest of the call once the loop is left.
unfoldable pub after_wait : ChunkHandle → Option Bool → ℕ → WaitEnd → Queue → Queue × EnqueueResult
unfolding finish
after_wait handle notify ns expired q = (
  record q {
    blocked_time_ns = add64 q.blocked_time_ns ns;
    block_timeouts = inc64 q.block_timeouts;
  },
  refuse timed_out true ns,
)
after_wait handle notify ns broken q = (add_blocked_time q ns, refuse synchronization_error true ns)
after_wait handle notify ns room_or_closed q =
    if q.closed != 0
    then (add_blocked_time q ns, refuse closed true ns)
    else finish handle notify (q.size == 0) none true ns (add_blocked_time q ns)

-- BLOCK_WITH_TIMEOUT on a full queue.
unfoldable pub block :
    ChunkHandle → Option Bool → Timespec → List Wait → Queue → Option (Queue × EnqueueResult)
unfolding wait_for_room after_wait elapsed_nanoseconds
block handle notify start waits q =
    elim (wait_for_room waits start (record q { blocked_count = inc64 q.blocked_count })) [
      | none ↦ none
      | some (q', how, now) ↦ some (after_wait handle notify (elapsed_nanoseconds start now) how q')
    ]

-- The call once the mutex is held. `none`: still blocked when the waits end.
unfoldable pub enqueue_locked :
    ChunkHandle → Option Bool → Timespec → List Wait → Queue → Option (Queue × EnqueueResult)
unfolding finish evict block
enqueue_locked handle notify start waits q =
    if q.closed != 0
    then some (q, refuse closed false 0)
    else if q.size == q.capacity
    then if q.overflow_policy == drop_newest
      then some
          (record q { dropped_newest = inc64 q.dropped_newest }, refuse dropped_newest false 0)
      else if q.overflow_policy == drop_oldest
      then some (finish handle notify false (some (slot q q.head)) false 0 (evict q))
      else block handle notify start waits q
    else some (finish handle notify (q.size == 0) none false 0 q)

unfoldable pub enqueue :
    LockOutcome
    → ChunkHandle
    → Option Bool
    → Timespec
    → List Wait
    → Queue
    → Option (Queue × EnqueueResult)
unfolding lock enqueue_locked
enqueue mutex handle notify start waits q =
    let (q', locked) = lock mutex q in
    if locked
    then enqueue_locked handle notify start waits q'
    else some (q', refuse synchronization_error false 0)
