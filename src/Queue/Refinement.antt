-- ===== src/Queue/Refinement.antt =====
-- The ring of subscriber_queue.cpp against the bounded list of Queue/Fifo.antt.
use cpp_robot_middleware.Prelude.{
  ℕ, zero, suc, ◌+◌, ◌<◌, ◌≡◌, ◌≢◌, ◌⊎◌, inl, inr, refl, Bool, false, not, ◌&&◌, List, [], ◌∷◌,
  ◌++◌, Option, none, some, length, arith, inc64, ◌==◌, if◌then◌else◌, Bool-cases, Option-cases,
  dec_lt,
}
use cpp_robot_middleware.ErrorCode.{drop_newest, drop_oldest}
use cpp_robot_middleware.Handle.{ChunkHandle}
use cpp_robot_middleware.Queue.{Queue, slot}
use cpp_robot_middleware.Queue.Clock.{Timespec}
use cpp_robot_middleware.Queue.Enqueue.{
  EnqueueResult, EnqueueStatus, refuse, accepted, dropped_newest, notification_failed, Wait, store,
  evict, finish, enqueue_locked,
}
use cpp_robot_middleware.Queue.Consume.{dequeue_locked, drain_locked, drain_from}
use cpp_robot_middleware.Queue.Invariant.{
  IsValid, mod-cases, store-IsValid, evict-IsValid, unstore-IsValid, dequeue_locked-IsValid,
}
use cpp_robot_middleware.Queue.Window.{window, contents, length-window}
use cpp_robot_middleware.Queue.Contents.{
  contents-store, contents-evict, contents-unstore-store, drain_from_lem,
}
use cpp_robot_middleware.Queue.Fifo.{offer, poll, is_empty, wake_fails, replace_oldest}

pub length-contents : (q : Queue) → length (contents q) ≡ q.size
length-contents q = length-window q.slots q.capacity q.head 0 q.size

is_empty-window : (q : Queue) (n : ℕ) → is_empty (window q.slots q.capacity q.head 0 n) ≡ (n == 0)
is_empty-window q zero = refl
is_empty-window q (suc n) = ground arith

-- What a finished `enqueue` shows: the contents, the status, and the handle that was dropped.
abbrev pub outcome : Queue × EnqueueResult → List ChunkHandle × EnqueueStatus × Option ChunkHandle
outcome (q, r) = (contents q, r.status, r.dropped)

pub finish-room :
    {q : Queue} (h : ChunkHandle) (notify : Option Bool) (blocked : Bool) (ns : ℕ)
    → IsValid q
    → q.size < q.capacity
    → outcome (finish h notify (q.size == 0) none blocked ns q) ≡ (
        if is_empty (contents q) && wake_fails notify
        then (contents q, notification_failed, none)
        else (contents q ++ (h ∷ []), accepted, none))
unfolding finish
finish-room {q} h none blocked ns v room =
    ground (arith, contents-store h v room, is_empty-window q q.size)
finish-room {q} h (some sent) blocked ns v room =
    ground
      (arith, contents-store h v room, contents-unstore-store h v room, is_empty-window q q.size)

pub evict-room : {q : Queue} → IsValid q → q.size ≢ 0 → (evict q).size < (evict q).capacity
unfolding evict
evict-room v h = omega (arith, v.depth, v.size_in)

-- DROP_OLDEST on a full queue.
finish-evict :
    {q : Queue} (h : ChunkHandle) (notify : Option Bool)
    → IsValid q
    → q.size ≢ 0
    → outcome (finish h notify false (some (slot q q.head)) false 0 (evict q))
      ≡ ((replace_oldest h (contents q)).0, accepted, (replace_oldest h (contents q)).1)
unfolding finish
finish-evict {q} h notify v full = elim (Option-cases notify) [
  | inl e ↦ rw e shown
  | inr (sent, e) ↦ rw e shown
]
  where
    shown :
        ◌≡◌ {A = List ChunkHandle × EnqueueStatus × Option ChunkHandle}
          (contents (store h (evict q)), accepted, some (slot q q.head))
          ((replace_oldest h (contents q)).0, accepted, (replace_oldest h (contents q)).1)
    shown =
        ground (
          arith,
          contents-evict v full,
          contents-store h (evict-IsValid v full) (evict-room v full),
        )

pub finish-IsValid :
    {q : Queue} (h : ChunkHandle) (notify : Option Bool) (needs : Bool)
    (dropped : Option ChunkHandle) (blocked : Bool) (ns : ℕ)
    → IsValid q
    → q.size < q.capacity
    → IsValid (finish h notify needs dropped blocked ns q).0
unfolding finish
finish-IsValid {q} h none needs dropped blocked ns v room = store-IsValid h v room
finish-IsValid {q} h (some sent) needs dropped blocked ns v room =
    elim (Bool-cases (needs && not sent)) [
      | inl e ↦ rw e (unstore-IsValid (store-IsValid h v room) (stored h v room))
      | inr e ↦ rw e (store-IsValid h v room)
    ]
  where
    stored : {q : Queue} (h : ChunkHandle) → IsValid q → q.size < q.capacity → (store h q).size ≢ 0
    stored h v room = omega (arith, v.depth)

-- What a call that does not wait returns, set against the bounded list.
abbrev Refines : ChunkHandle → Option Bool → Queue → Option (Queue × EnqueueResult) → Type 0
Refines h notify q r =
    (out : Queue × EnqueueResult) × (r ≡ some out)
    × (outcome out ≡ offer q.capacity q.overflow_policy h notify (contents q))
    × IsValid out.0

module _ {q : Queue} (h : ChunkHandle) (notify : Option Bool) (start : Timespec) (waits : List Wait)
    (v : IsValid q) (opened : q.closed ≡ 0) where
  enqueue-room : q.size < q.capacity → Refines h notify q (enqueue_locked h notify start waits q)
  unfolding enqueue_locked offer
  enqueue-room room = (
    finish h notify (q.size == 0) none false 0 q,
    ground arith,
    ground (arith, length-contents q, finish-room h notify false 0 v room),
    finish-IsValid h notify _ none false 0 v room,
  )

  enqueue-drop_newest :
      q.size ≡ q.capacity
      → q.overflow_policy ≡ drop_newest
      → Refines h notify q (enqueue_locked h notify start waits q)
  unfolding enqueue_locked offer
  enqueue-drop_newest full policy = (
    (record q { dropped_newest = inc64 q.dropped_newest }, refuse dropped_newest false 0),
    ground arith,
    ground (arith, length-contents q),
    omega (arith, v),
  )

  enqueue-drop_oldest :
      q.size ≡ q.capacity
      → q.overflow_policy ≡ drop_oldest
      → Refines h notify q (enqueue_locked h notify start waits q)
  unfolding enqueue_locked offer
  enqueue-drop_oldest full policy =
      let some_left : q.size ≢ 0 = omega (arith, v.head_in) in
      (
        finish h notify false (some (slot q q.head)) false 0 (evict q),
        ground arith,
        ground (arith, length-contents q, finish-evict h notify v some_left),
        finish-IsValid h notify false _ false 0 (evict-IsValid v some_left)
            (evict-room v some_left),
      )

-- On a valid open queue that drops, or has room, `enqueue` under the mutex does what the bounded list
-- does: the same contents, the same status and the same handle dropped, without waiting; and it
-- keeps the ring valid.
pub enqueue_locked_refines :
    {q : Queue} (h : ChunkHandle) (notify : Option Bool) (start : Timespec) (waits : List Wait)
    → IsValid q
    → q.closed ≡ 0
    → (q.size < q.capacity)
      ⊎ ((q.overflow_policy ≡ drop_newest) ⊎ (q.overflow_policy ≡ drop_oldest))
    → (out : Queue × EnqueueResult) × (enqueue_locked h notify start waits q ≡ some out)
      × (outcome out ≡ offer q.capacity q.overflow_policy h notify (contents q))
      × IsValid out.0
enqueue_locked_refines {q} h notify start waits v opened (inl room) =
    enqueue-room h notify start waits v opened room
enqueue_locked_refines {q} h notify start waits v opened (inr policy) =
    elim (dec_lt q.size q.capacity) [
      | yes room ↦ enqueue-room h notify start waits v opened room
      | no full ↦ elim policy [
        | inl p ↦ enqueue-drop_newest h notify start waits v opened (omega (arith, v.size_in)) p
        | inr p ↦ enqueue-drop_oldest h notify start waits v opened (omega (arith, v.size_in)) p
      ]
    ]

-- On a valid ring `tryDequeue` under the mutex returns the oldest handle, if there is one, leaves the
-- others in order and keeps the ring valid.
pub dequeue_locked_refines :
    {q : Queue}
    → IsValid q
    → (let (q', out) = dequeue_locked q in (contents q', out) ≡ poll (contents q))
      × IsValid (dequeue_locked q).0
unfolding dequeue_locked poll evict
dequeue_locked_refines {q} v = elim (Bool-cases (q.size == 0)) [
  | inl e ↦ (rw e (empty_case (ground arith)), dequeue_locked-IsValid v)
  | inr e ↦ (rw e (ground (arith, contents-evict v (ground arith))), dequeue_locked-IsValid v)
]
  where
    empty_case : q.size ≡ 0 → (contents q, none) ≡ poll (contents q)
    empty_case e = rw e

-- On a valid ring the loop that `drain` and `closeAndDrain` share returns all handles, oldest first,
-- and leaves a valid empty ring.
pub drain_locked_lem :
    {q : Queue}
    → IsValid q
    → ((drain_locked q).1 ≡ contents q)
      × (contents (drain_locked q).0 ≡ [])
      × IsValid (drain_locked q).0
unfolding drain_locked
drain_locked_lem {q} v =
    let d = drain_from_lem q q.head q.size v.depth v.head_in in
    (
      d.0,
      refl,
      record {
        storage = v.storage;
        depth = v.depth;
        head_in = d.1;
        size_in = omega arith;
        tail_at = omega (arith, d.1, mod-cases ((drain_from q q.head q.size).1 + 0) q.capacity);
      },
    )
