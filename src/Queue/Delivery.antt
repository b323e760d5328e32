-- ===== src/Queue/Delivery.antt =====
-- The whole of `enqueue`, with every policy, every lock outcome and every wait.
use cpp_robot_middleware.Prelude.{
  ℕ, ◌<◌, ◌≡◌, ◌≢◌, inl, inr, refl, subst, Bool, true, false, not, ◌&&◌, List, [], ◌∷◌, ◌++◌,
  Option, none, some, arith, ◌==◌, ◌!=◌, Bool-cases, inc64,
}
use cpp_robot_middleware.ErrorCode.{drop_newest, drop_oldest}
use cpp_robot_middleware.Handle.{ChunkHandle}
use cpp_robot_middleware.Queue.{Queue}
use cpp_robot_middleware.Queue.Lock.{LockOutcome, lock}
use cpp_robot_middleware.Queue.Clock.{Timespec, elapsed_nanoseconds}
use cpp_robot_middleware.Queue.Enqueue.{
  EnqueueResult, accepted, Wait, WaitEnd, room_or_closed, expired, broken, after_wait, block,
  wait_for_room, Looped, finish, enqueue_locked, enqueue, store,
}
use cpp_robot_middleware.Queue.Invariant.{IsValid, lock-IsValid, evict-IsValid}
use cpp_robot_middleware.Queue.Window.{contents}
use cpp_robot_middleware.Queue.Contents.{contents-store}
use cpp_robot_middleware.Queue.Refinement.{finish-IsValid, evict-room}
use cpp_robot_middleware.Queue.Blocking.{
  Keeps, TimesOut, Left, WhenLeft, wait_for_room-Left, wait_for_room-total,
}

-- A finished call: the ring is valid, and an accepted handle is its newest one.
pub record Delivered (h : ChunkHandle) (out : Queue × EnqueueResult) : Type 0 where
  pub valid : IsValid out.0
  pub newest :
      out.1.status ≡ accepted → (older : List ChunkHandle) × (contents out.0 ≡ older ++ (h ∷ []))

finish-Delivered :
    {q : Queue} (h : ChunkHandle) (notify : Option Bool) (needs : Bool)
    (dropped : Option ChunkHandle) (blocked : Bool) (ns : ℕ)
    → IsValid q
    → q.size < q.capacity
    → Delivered h (finish h notify needs dropped blocked ns q)
unfolding finish store
finish-Delivered {q} h notify needs dropped blocked ns v room = record {
  valid = finish-IsValid h notify needs dropped blocked ns v room;
  newest = λ e. (contents q, newest notify e);
}
  where
    newest :
        (n : Option Bool)
        → (finish h n needs dropped blocked ns q).1.status ≡ accepted
        → contents (finish h n needs dropped blocked ns q).0 ≡ contents q ++ (h ∷ [])
    newest none e = contents-store h v room
    newest (some sent) e = elim (Bool-cases (needs && not sent)) [
      | inl t ↦ absurd (ground arith)
      | inr t ↦ rw t (contents-store h v room)
    ]

refused :
    {q : Queue} {r : EnqueueResult} (h : ChunkHandle)
    → IsValid q
    → r.status ≢ accepted
    → Delivered h (q, r)
refused h v ne = record { valid = v; newest = λ e. absurd (ne e) }

after_wait-Delivered :
    (h : ChunkHandle) (notify : Option Bool) (ns : ℕ) (how : WaitEnd) (now : Timespec) (q : Queue)
    → Left (q, how, now)
    → Delivered h (after_wait h notify ns how q)
unfolding after_wait
after_wait-Delivered h notify ns expired now q l = refused h (omega (arith, l.valid)) (λ e. cc)
after_wait-Delivered h notify ns broken now q l = refused h (omega (arith, l.valid)) (λ e. cc)
after_wait-Delivered h notify ns room_or_closed now q l = elim (Bool-cases (q.closed != 0)) [
  | inl e ↦ rw e (refused h (omega (arith, l.valid)) (λ e. cc))
  | inr e ↦ rw e (
      finish-Delivered h notify (q.size == 0) none true ns (omega (arith, l.valid))
        (room e (l.reason refl)))
]
  where
    room :
        (q.closed != 0) ≡ false
        → (q.size == q.capacity && q.closed == 0) ≡ false
        → q.size < q.capacity
    room e f = ground (arith, l.valid)

-- A call that ends, ends well.
abbrev pub WhenDone : ChunkHandle → Option (Queue × EnqueueResult) → Type 0
WhenDone h none = Unit {0}
WhenDone h (some out) = Delivered h out

looped-Delivered :
    (h : ChunkHandle) (notify : Option Bool) (start : Timespec) (waits : List Wait) (q : Queue)
    (r : Looped)
    → wait_for_room waits start (record q { blocked_count = inc64 q.blocked_count }) ≡ r
    → WhenLeft r
    → WhenDone h (block h notify start waits q)
unfolding block
looped-Delivered h notify start waits q none e l = rw (e, block) tt
looped-Delivered h notify start waits q (some (q', how, now)) e l =
    rw (e, block) (after_wait-Delivered h notify (elapsed_nanoseconds start now) how now q' l)

block-Delivered :
    (h : ChunkHandle) (notify : Option Bool) (start : Timespec) (waits : List Wait) (q : Queue)
    → Keeps waits
    → IsValid q
    → WhenDone h (block h notify start waits q)
block-Delivered h notify start waits q k v =
    looped-Delivered h notify start waits q _ refl
      (wait_for_room-Left waits start _ k (omega (arith, v)))

enqueue_locked-Delivered :
    (h : ChunkHandle) (notify : Option Bool) (start : Timespec) (waits : List Wait) (q : Queue)
    → Keeps waits
    → IsValid q
    → WhenDone h (enqueue_locked h notify start waits q)
unfolding enqueue_locked
enqueue_locked-Delivered h notify start waits q k v = elim (Bool-cases (q.closed != 0)) [
  | inl c ↦ rw c (refused h v (λ e. cc))
  | inr c ↦ rw c (elim (Bool-cases (q.size == q.capacity)) [
    | inr room ↦ rw room (finish-Delivered h notify _ none false 0 v (ground (arith, v.size_in)))
    | inl full ↦ rw full (elim (Bool-cases (q.overflow_policy == drop_newest)) [
      | inl p ↦ rw p (refused h (omega (arith, v)) (λ e. cc))
      | inr p ↦ rw p (elim (Bool-cases (q.overflow_policy == drop_oldest)) [
        | inl o ↦ rw o (
            finish-Delivered h notify false _ false 0 (evict-IsValid v (left full))
              (evict-room v (left full)))
        | inr o ↦ rw o (block-Delivered h notify start waits q k v)
      ])
    ])
  ])
]
  where
    left : (q.size == q.capacity) ≡ true → q.size ≢ 0
    left full = ground (arith, v.head_in)

enqueue-Delivered :
    (mutex : LockOutcome) (h : ChunkHandle) (notify : Option Bool) (start : Timespec)
    (waits : List Wait) (q : Queue)
    → Keeps waits
    → IsValid q
    → WhenDone h (enqueue mutex h notify start waits q)
unfolding enqueue
enqueue-Delivered mutex h notify start waits q k v = elim (Bool-cases (lock mutex q).1) [
  | inl e ↦ rw e (enqueue_locked-Delivered h notify start waits _ k (lock-IsValid mutex v))
  | inr e ↦ rw e (refused h (lock-IsValid mutex v) (λ f. cc))
]

abbrev Returns : Option (Queue × EnqueueResult) → Type 0
Returns r = (out : Queue × EnqueueResult) × (r ≡ some out)

block-total :
    (h : ChunkHandle) (notify : Option Bool) (start : Timespec) (waits : List Wait) (q : Queue)
    → TimesOut waits
    → Returns (block h notify start waits q)
unfolding block
block-total h notify start waits q t =
    let (out, e) =
      wait_for_room-total waits start (record q { blocked_count = inc64 q.blocked_count }) t in
    (after_wait h notify (elapsed_nanoseconds start out.2) out.1 out.0, rw (e, block))

enqueue_locked-total :
    (h : ChunkHandle) (notify : Option Bool) (start : Timespec) (waits : List Wait) (q : Queue)
    → TimesOut waits
    → Returns (enqueue_locked h notify start waits q)
unfolding enqueue_locked
enqueue_locked-total h notify start waits q t = elim (Bool-cases (q.closed != 0)) [
  | inl c ↦ rw c (_, refl)
  | inr c ↦ rw c (elim (Bool-cases (q.size == q.capacity)) [
    | inr room ↦ rw room (_, refl)
    | inl full ↦ rw full (elim (Bool-cases (q.overflow_policy == drop_newest)) [
      | inl p ↦ rw p (_, refl)
      | inr p ↦ rw p (elim (Bool-cases (q.overflow_policy == drop_oldest)) [
        | inl o ↦ rw o (_, refl)
        | inr o ↦ rw o (block-total h notify start waits q t)
      ])
    ])
  ])
]

enqueue-Returns :
    (mutex : LockOutcome) (h : ChunkHandle) (notify : Option Bool) (start : Timespec)
    (waits : List Wait) (q : Queue)
    → TimesOut waits
    → Returns (enqueue mutex h notify start waits q)
unfolding enqueue
enqueue-Returns mutex h notify start waits q t = elim (Bool-cases (lock mutex q).1) [
  | inl e ↦ rw e (enqueue_locked-total h notify start waits (lock mutex q).0 t)
  | inr e ↦ rw e (_, refl)
]

-- On a valid ring, under any policy and lock outcome, `enqueue` returns and leaves a valid ring, if the
-- other processes keep the ring valid during its waits and one of the waits meets the deadline.
pub enqueue-total :
    (mutex : LockOutcome) (h : ChunkHandle) (notify : Option Bool) (start : Timespec)
    (waits : List Wait) (q : Queue)
    → Keeps waits
    → TimesOut waits
    → IsValid q
    → (out : Queue × EnqueueResult) × (enqueue mutex h notify start waits q ≡ some out)
      × IsValid out.0
enqueue-total mutex h notify start waits q k t v =
    let (out, e) = enqueue-Returns mutex h notify start waits q t in
    (out, e, (subst (WhenDone h) e (enqueue-Delivered mutex h notify start waits q k v)).valid)

-- When `enqueue` on a valid ring returns ACCEPTED, the handle is the newest one in the ring, under any
-- policy and lock outcome, if the other processes keep the ring valid during its waits.
pub enqueue-newest :
    (mutex : LockOutcome) (h : ChunkHandle) (notify : Option Bool) (start : Timespec)
    (waits : List Wait) (q : Queue) (out : Queue × EnqueueResult)
    → Keeps waits
    → IsValid q
    → enqueue mutex h notify start waits q ≡ some out
    → out.1.status ≡ accepted
    → (older : List ChunkHandle) × (contents out.0 ≡ older ++ (h ∷ []))
enqueue-newest mutex h notify start waits q out k v e done =
    (subst (WhenDone h) e (enqueue-Delivered mutex h notify start waits q k v)).newest done
