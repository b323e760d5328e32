-- ===== src/Queue/Contents.antt =====
-- What each elementary change of the ring does to the handles that it holds.
use cpp_robot_middleware.Prelude.{
  ℕ, zero, suc, ◌+◌, ◌-◌, ◌%◌, ◌≤◌, ◌<◌, ◌≡◌, ◌≢◌, inr, refl, sym, ap, ap₂, ◌∙◌, [], ◌∷◌, ◌++◌, set,
  get_or, arith, inc32,
}
use cpp_robot_middleware.Handle.{ChunkHandle, no_handle}
use cpp_robot_middleware.Queue.{Queue, max_depth, slot, next_index}
use cpp_robot_middleware.Queue.Enqueue.{store, unstore, evict}
use cpp_robot_middleware.Queue.Consume.{drain_from}
use cpp_robot_middleware.Queue.Invariant.{IsValid, mod-cases}
use cpp_robot_middleware.Queue.Window.{
  window, contents, window-set_ne, window-set_snoc, window-next, next_index_lem,
}

-- The tail, in the form that the window lemmas have.
tail-offset : {q : Queue} → IsValid q → q.tail ≡ (q.head + (0 + q.size)) % q.capacity
tail-offset {q} v = v.tail_at ∙ ap (λ k. (q.head + k) % q.capacity) (omega arith)

pub contents-store :
    {q : Queue} (h : ChunkHandle)
    → IsValid q
    → q.size < q.capacity
    → contents (store h q) ≡ contents q ++ (h ∷ [])
unfolding store
contents-store {q} h v room =
    let grown : inc32 q.size ≡ suc q.size = omega (arith, v.depth) in
    ap₂ (λ k n. window (set q.slots k h) q.capacity q.head 0 n) (tail-offset v) grown
    ∙ window-set_snoc q.slots q.capacity q.head 0 q.size h (omega (arith, v.storage)) v.head_in
        (omega arith)

-- The rollback gives back what was there before the store.
pub contents-unstore-store :
    {q : Queue} (h : ChunkHandle)
    → IsValid q
    → q.size < q.capacity
    → contents (unstore (store h q)) ≡ contents q
unfolding store unstore
contents-unstore-store {q} h v room =
    ap₂ (λ k n. window (set q.slots k h) q.capacity q.head 0 n) (tail-offset v)
      (omega (arith, v.depth))
    ∙ window-set_ne q.slots q.capacity q.head 0 q.size (0 + q.size) h v.head_in (omega arith)
        (omega arith) (inr (omega arith))

-- Taking the head out leaves the rest.
pub window-pop :
    (q : Queue) (n : ℕ)
    → IsValid q
    → window q.slots q.capacity q.head 0 (suc n)
      ≡ slot q q.head ∷ window q.slots q.capacity (next_index q q.head) 0 n
window-pop q n v =
    ap₂ ◌∷◌
      (ap (λ k. get_or q.slots k no_handle) (omega (arith, mod-cases (q.head + 0) q.capacity)))
      (sym (
        ap (λ k. window q.slots q.capacity k 0 n)
          (next_index_lem q q.head (omega (arith, v.depth, v.head_in)))
        ∙ window-next q.slots q.capacity q.head 0 n))

size-suc : (q : Queue) → q.size ≢ 0 → q.size ≡ suc (q.size - 1)
size-suc q h = omega arith

pub contents-evict :
    {q : Queue} → IsValid q → q.size ≢ 0 → contents q ≡ slot q q.head ∷ contents (evict q)
unfolding evict
contents-evict {q} v h =
    ap (window q.slots q.capacity q.head 0) (size-suc q h)
    ∙ window-pop q (q.size - 1) v
    ∙ ap (λ n. slot q q.head ∷ window q.slots q.capacity (next_index q q.head) 0 n)
        (omega (arith, v.depth, v.size_in))

-- The drain loop reads the window from its head, and stops behind it.
pub drain_from_lem :
    (q : Queue) (head n : ℕ)
    → q.capacity ≤ max_depth
    → head < q.capacity
    → ((drain_from q head n).0 ≡ window q.slots q.capacity head 0 n)
      × ((drain_from q head n).1 < q.capacity)
unfolding drain_from
drain_from_lem q head zero d h = (refl, h)
drain_from_lem q head (suc n) d h =
    let e = next_index_lem q head (omega arith) in
    let below : next_index q head < q.capacity =
      omega (arith, e, mod-cases (head + 1) q.capacity) in
    let rest = drain_from_lem q (next_index q head) n d below in
    (
      ap₂ ◌∷◌
          (ap (λ k. get_or q.slots k no_handle) (omega (arith, mod-cases (head + 0) q.capacity)))
          (rest.0
            ∙ ap (λ k. window q.slots q.capacity k 0 n) e
            ∙ window-next q.slots q.capacity head 0 n),
      rest.1,
    )
