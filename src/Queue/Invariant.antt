-- ===== src/Queue/Invariant.antt =====
-- The representation invariant of the ring, with a lemma for each elementary change of it.
use native.Mathlib.Nat.{mod-lt, mod-eq_of_lt, mod-eq-sub-mod}
use cpp_robot_middleware.Prelude.{
  ℕ, ◌+◌, ◌-◌, ◌%◌, ◌≤◌, ◌<◌, ◌≡◌, ◌≢◌, ◌∙◌, ◌⊎◌, inl, inr, dec_lt, Bool-cases, ◌==◌, true, length,
  length-set, arith,
}
use cpp_robot_middleware.Handle.{ChunkHandle}
use cpp_robot_middleware.Queue.{Queue, max_depth, ring_invariants_hold}
use cpp_robot_middleware.Queue.Lock.{LockOutcome, lock, reset_ring_after_owner_death}
use cpp_robot_middleware.Queue.Enqueue.{store, unstore, evict}
use cpp_robot_middleware.Queue.Consume.{dequeue_locked}

-- The slots are as many as the capacity, the head lies inside, and the tail is where the head and
-- the size put it.
pub record IsValid (q : Queue) : Type 0 where
  pub storage : length q.slots ≡ q.capacity
  pub depth : q.capacity ≤ max_depth
  pub head_in : q.head < q.capacity
  pub size_in : q.size ≤ q.capacity
  pub tail_at : q.tail ≡ (q.head + q.size) % q.capacity

-- What `open` checks of a queue follows from the invariant.
pub IsValid-ring_invariants_hold : {q : Queue} → IsValid q → ring_invariants_hold q ≡ true
unfolding ring_invariants_hold
IsValid-ring_invariants_hold {q} v =
    ground (arith, mod-lt (q.head + q.size) {m = q.capacity} (omega arith))

-- An index that passes the end once comes back by one capacity.
pub mod-cases : (x c : ℕ) → x < c + c → ((x < c) × (x % c ≡ x)) ⊎ ((c ≤ x) × (x % c ≡ x - c))
mod-cases x c h = elim (dec_lt x c) [
  | yes p ↦ inl (p, mod-eq_of_lt p)
  | no p ↦
      inr (omega arith, mod-eq-sub-mod {n = x} {m = c} (omega arith) ∙ mod-eq_of_lt (omega arith))
]

pub store-IsValid :
    {q : Queue} (h : ChunkHandle) → IsValid q → q.size < q.capacity → IsValid (store h q)
unfolding store
store-IsValid {q} h v room = ground (
  arith,
  length-set q.slots q.tail h,
  mod-cases (q.head + q.size) q.capacity,
  mod-cases (q.head + q.size + 1) q.capacity,
  mod-cases (q.tail + 1) q.capacity,
)

pub evict-IsValid : {q : Queue} → IsValid q → q.size ≢ 0 → IsValid (evict q)
unfolding evict
evict-IsValid {q} v some_left = ground (
  arith,
  mod-cases (q.head + q.size) q.capacity,
  mod-cases (q.head + 1) q.capacity,
  mod-cases ((q.head + 1) % q.capacity + (q.size - 1)) q.capacity,
)

pub unstore-IsValid : {q : Queue} → IsValid q → q.size ≢ 0 → IsValid (unstore q)
unfolding unstore
unstore-IsValid {q} v some_left =
    ground
      (arith, mod-cases (q.head + q.size) q.capacity, mod-cases (q.head + (q.size - 1)) q.capacity)

pub dequeue_locked-IsValid : {q : Queue} → IsValid q → IsValid (dequeue_locked q).0
unfolding dequeue_locked evict
dequeue_locked-IsValid {q} v = elim (Bool-cases (q.size == 0)) [
  | inl e ↦ rw e v
  | inr e ↦ rw e (record {
    storage = v.storage;
    depth = v.depth;
    head_in = (evict-IsValid v (ground arith)).head_in;
    size_in = (evict-IsValid v (ground arith)).size_in;
    tail_at = (evict-IsValid v (ground arith)).tail_at;
  })
]

pub reset-IsValid : {q : Queue} → IsValid q → IsValid (reset_ring_after_owner_death q)
unfolding reset_ring_after_owner_death
reset-IsValid v = ground arith

pub lock-IsValid : {q : Queue} (m : LockOutcome) → IsValid q → IsValid (lock m q).0
unfolding lock
lock-IsValid {q} m v = ground (arith, reset-IsValid v)
