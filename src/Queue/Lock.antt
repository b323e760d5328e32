-- ===== src/Queue/Lock.antt =====
-- `PthreadLock` and the repair after an owner's death, subscriber_queue.cpp.
use cpp_robot_middleware.Prelude.{Bool, true, false, inc64}
use cpp_robot_middleware.Queue.{Queue}

-- What `pthread_mutex_lock` (or `_trylock`) answers; for a dead owner also whether
-- `pthread_mutex_consistent` then succeeds. `refused` is every other error.
pub data LockOutcome : Type 0 where
  acquired : LockOutcome
  owner_dead : Bool → LockOutcome
  not_recoverable refused : LockOutcome

unfoldable pub reset_ring_after_owner_death : Queue → Queue
reset_ring_after_owner_death q = record q {
  head = 0;
  tail = 0;
  size = 0;
  owner_death_recoveries = inc64 q.owner_death_recoveries;
}

-- The queue after the attempt, and `locked()`.
unfoldable pub lock : LockOutcome → Queue → Queue × Bool
unfolding reset_ring_after_owner_death
lock acquired q = (q, true)
lock (owner_dead consistent) q = (reset_ring_after_owner_death q, consistent)
lock not_recoverable q = (q, false)
lock refused q = (q, false)
