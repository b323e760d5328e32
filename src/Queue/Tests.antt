-- ===== src/Queue/Tests.antt =====
-- Runs of the queue on concrete rings, and the theorems about it at these rings.
use cpp_robot_middleware.Prelude.{
  ℕ, ◌≡◌, inl, inr, refl, ◌++◌, true, false, List, [], ◌∷◌, none, some, arith, select, ◌<◌, ◌≤◌,
  ◌+◌, ◌*◌, map,
}
use cpp_robot_middleware.ErrorCode.{drop_newest, drop_oldest, block_with_timeout}
use cpp_robot_middleware.Handle.{ChunkHandle}
use cpp_robot_middleware.Queue.{Queue, ring_invariants_hold}
use cpp_robot_middleware.Queue.Lock.{acquired, owner_dead, refused}
use cpp_robot_middleware.Queue.Clock.{
  Timespec, carry, monotonic_deadline, monotonic_deadline_lem, to_ns, second_ns, time_max,
}
use cpp_robot_middleware.Queue.Enqueue.{
  EnqueueResult, accepted, Wait, deadline_passed, enqueue_locked, enqueue,
}
use cpp_robot_middleware.Queue.Consume.{dequeue_locked, drain_locked, discard_locked, kept_by}
use cpp_robot_middleware.Queue.Invariant.{IsValid, IsValid-ring_invariants_hold}
use cpp_robot_middleware.Queue.Window.{contents}
use cpp_robot_middleware.Queue.Blocking.{Keeps}
use cpp_robot_middleware.Queue.Delivery.{enqueue-total, enqueue-newest}
use cpp_robot_middleware.Queue.Compaction.{discard_locked_lem}
use cpp_robot_middleware.Queue.Fifo.{offer, poll}
use cpp_robot_middleware.ErrorCode.{ok}
use cpp_robot_middleware.Wire.{is_valid_shared_memory_name}
use cpp_robot_middleware.QueueProtocol.{QueueDescriptor, valid_overflow_policy}
use cpp_robot_middleware.Queue.Setup.{
  create, new_queue, open_mapped, recover_and_close_mapped, immutable_header_matches,
  valid_descriptor, required_segment_size,
}
use cpp_robot_middleware.Queue.Opening.{create-open, Attachable}
use cpp_robot_middleware.Queue.Closing.{Attempt, enqueue_all, refusal, recover_and_close-refuses}
use cpp_robot_middleware.Queue.Refinement.{
  outcome, enqueue_locked_refines, dequeue_locked_refines, drain_locked_lem,
}

abbrev chunk : ℕ → ℕ → ChunkHandle
chunk pool i = record { pool_id = pool; chunk_index = i; generation = 1; payload_offset = i * 128 }

-- Three slots, two handles of two pools, wrapped around the end.
abbrev two_handles : ℕ → Queue
two_handles policy = record {
  magic = 0;
  version = 3;
  header_size = 192;
  segment_size = 264;
  queue_id = 7;
  block_timeout_ms = 5;
  capacity = 3;
  head = 2;
  tail = 1;
  size = 2;
  max_size = 2;
  attachment_count = 1;
  closed = 0;
  overflow_policy = policy;
  enqueued = 2;
  dequeued = 0;
  dropped_newest = 0;
  dropped_oldest = 0;
  block_timeouts = 0;
  blocked_count = 0;
  blocked_time_ns = 0;
  owner_death_recoveries = 0;
  peer_resets = 0;
  slots = chunk 2 1 ∷ chunk 0 0 ∷ chunk 1 0 ∷ [];
}

-- The same ring, full.
abbrev three_handles : ℕ → Queue
three_handles policy = record (two_handles policy) {
  tail = 2;
  size = 3;
  slots = chunk 2 1 ∷ chunk 1 2 ∷ chunk 1 0 ∷ [];
}

two_handles-IsValid : (policy : ℕ) → IsValid (two_handles policy)
two_handles-IsValid policy = record {
  storage = refl;
  depth = omega arith;
  head_in = omega arith;
  size_in = omega arith;
  tail_at = refl;
}

three_handles-IsValid : (policy : ℕ) → IsValid (three_handles policy)
three_handles-IsValid policy = record {
  storage = refl;
  depth = omega arith;
  head_in = omega arith;
  size_in = omega arith;
  tail_at = refl;
}

abbrev start : Timespec
start = record { tv_sec = 10; tv_nsec = 999999999 }

-- Nothing happens during a wait, which ends at the deadline.
abbrev one_wait : List Wait
one_wait =
    record {
      others = λ q. q;
      error = deadline_passed;
      now = record { tv_sec = 11; tv_nsec = 4999999 };
    }
    ∷ []

one_wait-Keeps : Keeps one_wait
one_wait-Keeps = (λ q v. v, tt)

contents_two : contents (two_handles 2) ≡ chunk 1 0 ∷ chunk 2 1 ∷ []
contents_two = refl

enqueue_locked_refines_example :
    (out : Queue × EnqueueResult) × (enqueue_locked
        (chunk 1 5)
        none
        start
        []
        (three_handles drop_oldest)
      ≡ some out)
    × (outcome out ≡ offer 3 drop_oldest (chunk 1 5) none (contents (three_handles drop_oldest)))
    × IsValid out.0
enqueue_locked_refines_example =
    enqueue_locked_refines (chunk 1 5) none start [] (three_handles-IsValid drop_oldest) refl
      (inr (inr refl))

enqueue-total_example :
    (out : Queue × EnqueueResult) × (enqueue acquired
        (chunk 1 5)
        none
        start
        one_wait
        (three_handles block_with_timeout)
      ≡ some out)
    × IsValid out.0
enqueue-total_example =
    enqueue-total acquired (chunk 1 5) none start one_wait (three_handles block_with_timeout)
      one_wait-Keeps (inl refl) (three_handles-IsValid block_with_timeout)

abbrev stored : Queue
stored = record (two_handles drop_newest) {
  tail = 2;
  size = 3;
  enqueued = 3;
  max_size = 3;
  slots = chunk 2 1 ∷ chunk 1 5 ∷ chunk 1 0 ∷ [];
}

abbrev stored_result : Queue × EnqueueResult
stored_result = (
  stored,
  record {
    status = accepted;
    dropped = none;
    notification_sent = false;
    blocked = false;
    blocked_time_ns = 0;
  },
)

enqueue_stores :
    enqueue acquired (chunk 1 5) none start [] (two_handles drop_newest) ≡ some stored_result
unfolding enqueue
enqueue_stores = refl

enqueue-newest_example : (older : List ChunkHandle) × (contents stored ≡ older ++ (chunk 1 5 ∷ []))
enqueue-newest_example =
    enqueue-newest acquired (chunk 1 5) none start [] (two_handles drop_newest) stored_result tt
      (two_handles-IsValid drop_newest) enqueue_stores refl

dequeue_locked_refines_example :
    (let (q', out) = dequeue_locked (two_handles drop_newest) in
      (contents q', out) ≡ poll (contents (two_handles drop_newest)))
    × IsValid (dequeue_locked (two_handles drop_newest)).0
dequeue_locked_refines_example = dequeue_locked_refines (two_handles-IsValid drop_newest)

drain_locked_lem_example :
    ((drain_locked (two_handles drop_newest)).1 ≡ contents (two_handles drop_newest))
    × (contents (drain_locked (two_handles drop_newest)).0 ≡ [])
    × IsValid (drain_locked (two_handles drop_newest)).0
drain_locked_lem_example = drain_locked_lem (two_handles-IsValid drop_newest)

discard_locked_lem_example :
    IsValid (discard_locked 1 (three_handles drop_newest))
    × (contents (discard_locked 1 (three_handles drop_newest))
        ≡ select (kept_by 1) (contents (three_handles drop_newest)))
discard_locked_lem_example = discard_locked_lem 1 (three_handles-IsValid drop_newest)

IsValid-ring_invariants_hold_example : ring_invariants_hold (two_handles drop_newest) ≡ true
IsValid-ring_invariants_hold_example =
    IsValid-ring_invariants_hold (two_handles-IsValid drop_newest)

monotonic_deadline_lem_example :
    (deadline : Timespec) × (monotonic_deadline (some start) 5 ≡ some deadline)
    × (to_ns deadline ≡ to_ns start + 5 * 1000000)
    × (deadline.tv_nsec < second_ns)
    × (deadline.tv_sec ≤ time_max)
monotonic_deadline_lem_example = monotonic_deadline_lem start 5 (omega arith) (omega arith)

-- The carry into a second that `time_t` cannot hold.
carry_overflows :
    monotonic_deadline (some (record { tv_sec = time_max; tv_nsec = 999999999 })) 1 ≡ none
unfolding monotonic_deadline carry
carry_overflows = refl

-- A header of 192 bytes and three slots of 24.
abbrev descriptor : QueueDescriptor
descriptor = record {
  shm_name = 47 ∷ 113 ∷ [];
  queue_id = 7;
  segment_size = 264;
  capacity = 3;
  layout_version = 3;
  overflow_policy = drop_oldest;
  block_timeout_ms = 5;
}

abbrev fresh : Queue
fresh = new_queue 192 descriptor

fresh_made : create 192 true descriptor ≡ some fresh
unfolding create valid_descriptor required_segment_size is_valid_shared_memory_name
    valid_overflow_policy
fresh_made = refl

create-open_example :
    IsValid fresh
    × (contents fresh ≡ [])
    × (open_mapped 192 acquired descriptor fresh ≡ (record fresh { attachment_count = 2 }, ok))
create-open_example = create-open 192 true descriptor fresh (omega arith) fresh_made

fresh-IsValid : IsValid fresh
fresh-IsValid = (create-open 192 true descriptor fresh (omega arith) fresh_made).0

fresh-Attachable : Attachable 192 descriptor fresh fresh
fresh-Attachable = ground arith

-- The owner died with two handles in the ring of `descriptor`.
abbrev abandoned : Queue
abandoned = record fresh { size = 2; tail = 2 }

abandoned-IsValid : IsValid abandoned
abandoned-IsValid = record {
  storage = refl;
  depth = omega arith;
  head_in = omega arith;
  size_in = omega arith;
  tail_at = refl;
}

abbrev recovered : Queue
recovered = record fresh { closed = 1; peer_resets = 1; owner_death_recoveries = 1 }

abandoned_closed :
    recover_and_close_mapped 192 (owner_dead true) descriptor abandoned ≡ (recovered, ok)
unfolding recover_and_close_mapped immutable_header_matches
abandoned_closed = refl

-- A call that gets the mutex from a dead owner, and one that does not get it.
abbrev later : List Attempt
later =
    record { mutex = owner_dead true; handle = chunk 1 5; notify = none; start = start; waits = [] }
    ∷ record { mutex = refused; handle = chunk 1 5; notify = none; start = start; waits = [] }
    ∷ []

recover_and_close-refuses_example :
    IsValid recovered
    × (contents recovered ≡ [])
    × ((q'' : Queue) × (enqueue_all later recovered ≡ some (q'', map refusal later))
        × IsValid q''
        × (contents q'' ≡ []))
recover_and_close-refuses_example =
    recover_and_close-refuses 192 (owner_dead true) descriptor abandoned recovered later
      abandoned-IsValid abandoned_closed
