-- ===== src/Queue/Closing.antt =====
-- A queue after `recoverAndClose`: it is empty and refuses every handle.
use cpp_robot_middleware.Prelude.{
  ℕ, ◌≡◌, inl, inr, refl, ap, subst, Bool, true, false, if◌then◌else◌, map, and_then, List, [], ◌∷◌,
  Option, some, ◌!=◌, inc64, arith, Bool-cases,
}
use cpp_robot_middleware.ErrorCode.{ok}
use cpp_robot_middleware.Handle.{ChunkHandle}
use cpp_robot_middleware.QueueProtocol.{QueueDescriptor}
use cpp_robot_middleware.Queue.{Queue}
use cpp_robot_middleware.Queue.Lock.{
  LockOutcome, lock, acquired, owner_dead, not_recoverable, refused, reset_ring_after_owner_death,
}
use cpp_robot_middleware.Queue.Clock.{Timespec}
use cpp_robot_middleware.Queue.Enqueue.{
  Wait, EnqueueResult, enqueue, enqueue_locked, refuse, closed, synchronization_error,
}
use cpp_robot_middleware.Queue.Setup.{immutable_header_matches, recover_and_close_mapped}
use cpp_robot_middleware.Queue.Invariant.{IsValid, lock-IsValid}
use cpp_robot_middleware.Queue.Window.{contents}

-- One later call of `enqueue`, with what the mutex answers to it.
pub record Attempt : Type 0 where
  pub mutex : LockOutcome
  pub handle : ChunkHandle
  pub notify : Option Bool
  pub start : Timespec
  pub waits : List Wait

-- Calls of `enqueue` in turn, with their results.
abbrev pub enqueue_all : List Attempt → Queue → Option (Queue × List EnqueueResult)
enqueue_all [] q = some (q, [])
enqueue_all (a ∷ later) q =
    and_then (enqueue a.mutex a.handle a.notify a.start a.waits q) (λ (q', result).
      and_then (enqueue_all later q') (λ (q'', results). some (q'', result ∷ results)))

-- Whether an answer of the mutex lets the call go on.
abbrev pub takes : LockOutcome → Bool
takes acquired = true
takes (owner_dead consistent) = consistent
takes not_recoverable = false
takes refused = false

abbrev pub refusal : Attempt → EnqueueResult
refusal a = refuse (if takes a.mutex then closed else synchronization_error) false 0

-- A queue that stays empty.
record Ended (q : Queue) : Type 0 where
  valid : IsValid q
  drained : q.size ≡ 0
  shut : (q.closed != 0) ≡ true

Ended-contents : (q : Queue) → Ended q → contents q ≡ []
Ended-contents q e = rw (e.drained) refl

lock-Ended :
    (mutex : LockOutcome) (q : Queue)
    → Ended q
    → Ended (lock mutex q).0 × ((lock mutex q).1 ≡ takes mutex)
unfolding lock reset_ring_after_owner_death
lock-Ended acquired q e = (e, refl)
lock-Ended (owner_dead consistent) q e = (
  record { valid = lock-IsValid (owner_dead consistent) e.valid; drained = refl; shut = e.shut },
  refl,
)
lock-Ended not_recoverable q e = (e, refl)
lock-Ended refused q e = (e, refl)

enqueue-Ended :
    (a : Attempt) (q : Queue)
    → Ended q
    → enqueue a.mutex a.handle a.notify a.start a.waits q ≡ some ((lock a.mutex q).0, refusal a)
unfolding enqueue enqueue_locked
enqueue-Ended a q e =
    let (ended, taken) = lock-Ended a.mutex q e in
    elim (Bool-cases (takes a.mutex)) [
      | inl t ↦ rw (taken, t, ended.shut) refl
      | inr t ↦ rw (taken, t) refl
    ]

enqueue_all-Ended :
    (later : List Attempt) (q : Queue)
    → Ended q
    → (q' : Queue) × (enqueue_all later q ≡ some (q', map refusal later)) × Ended q'
enqueue_all-Ended [] q e = (q, refl, e)
enqueue_all-Ended (a ∷ later) q e =
    let (ended, taken) = lock-Ended a.mutex q e in
    let (q', runs, e') = enqueue_all-Ended later (lock a.mutex q).0 ended in
    (q', rw (enqueue-Ended a q e, runs) refl, e')

-- When `recoverAndClose` of a valid queue succeeds, the ring is valid and empty. Of any calls of
-- `enqueue` after it, with any answers of the mutex, each reports CLOSED if it gets the mutex, from a
-- dead owner too, and else a synchronization error, and the ring that they leave is valid and empty.
pub recover_and_close-refuses :
    (header_size : ℕ) (mutex : LockOutcome) (d : QueueDescriptor) (q q' : Queue)
    (later : List Attempt)
    → IsValid q
    → recover_and_close_mapped header_size mutex d q ≡ (q', ok)
    → IsValid q'
      × (contents q' ≡ [])
      × ((q'' : Queue) × (enqueue_all later q' ≡ some (q'', map refusal later))
          × IsValid q''
          × (contents q'' ≡ []))
unfolding recover_and_close_mapped
recover_and_close-refuses header_size mutex d q q' later v done =
    elim (Bool-cases (immutable_header_matches header_size q d)) [
      | inr m ↦ (let bad = rw m at done in cc)
      | inl m ↦ elim (Bool-cases (lock mutex q).1) [
        | inr l ↦ (let bad = rw (m, l) at done in cc)
        | inl l ↦
            let is_empty = rw (m, l) at done in
            let w = lock-IsValid mutex v in
            let same : recovered (lock mutex q).0 ≡ q' = ap (λ o. o.0) is_empty in
            let e : Ended q' = subst Ended same (recovered-Ended (lock mutex q).0 w) in
            let (q'', runs, e'') = enqueue_all-Ended later q' e in
            (e.valid, Ended-contents q' e, (q'', runs, e''.valid, Ended-contents q'' e''))
      ]
    ]
  where
    recovered : Queue → Queue
    recovered r = record r {
      head = 0;
      tail = 0;
      size = 0;
      closed = 1;
      peer_resets = inc64 r.peer_resets;
    }

    recovered-Ended : (r : Queue) → IsValid r → Ended (recovered r)
    recovered-Ended r w = record {
      valid = record {
        storage = w.storage;
        depth = w.depth;
        head_in = omega (arith, w.head_in);
        size_in = omega arith;
        tail_at = ground (arith, w.head_in);
      };
      drained = refl;
      shut = refl;
    }
