-- ===== src/Queue/Window.antt =====
-- The handles that a ring holds, oldest first, and how stores into the slots change them.
use native.Mathlib.Nat.{mod-add-mod}
use cpp_robot_middleware.Prelude.{
  ℕ, zero, suc, ◌+◌, ◌%◌, ◌≤◌, ◌<◌, ◌≡◌, ◌≢◌, ◌⊎◌, inr, refl, ap, ap₂, ◌∙◌, List, [], ◌∷◌, ◌++◌,
  length, get_or, set, get_or-set_self, get_or-set_ne, arith,
}
use cpp_robot_middleware.Handle.{ChunkHandle, no_handle}
use cpp_robot_middleware.Queue.{Queue, max_depth, next_index}
use cpp_robot_middleware.Queue.Invariant.{mod-cases}

-- The slots `(head + i) % capacity`, …, `n` of them.
abbrev pub window : List ChunkHandle → ℕ → ℕ → ℕ → ℕ → List ChunkHandle
window slots cap head i zero = []
window slots cap head i (suc n) =
    get_or slots ((head + i) % cap) no_handle ∷ window slots cap head (suc i) n

abbrev pub contents : Queue → List ChunkHandle
contents q = window q.slots q.capacity q.head 0 q.size

pub length-window :
    (slots : List ChunkHandle) (cap head i n : ℕ) → length (window slots cap head i n) ≡ n
length-window slots cap head i zero = refl
length-window slots cap head i (suc n) = ap suc (length-window slots cap head (suc i) n)

-- Two offsets below the capacity reach two slots.
ring_injective :
    (cap head i j : ℕ)
    → head < cap
    → i < cap
    → j < cap
    → i ≢ j
    → (head + i) % cap ≢ (head + j) % cap
ring_injective cap head i j hh hi hj ne =
    ground (arith, mod-cases (head + i) cap, mod-cases (head + j) cap)

-- A store at an offset before or behind a window does not change it.
pub window-set_ne :
    (slots : List ChunkHandle) (cap head i n k : ℕ) (h : ChunkHandle)
    → head < cap
    → i + n ≤ cap
    → k < cap
    → (k < i) ⊎ (i + n ≤ k)
    → window (set slots ((head + k) % cap) h) cap head i n ≡ window slots cap head i n
window-set_ne slots cap head i zero k h hh hn hk out = refl
window-set_ne slots cap head i (suc n) k h hh hn hk out =
    ap₂ ◌∷◌
      (get_or-set_ne slots h no_handle
        (ring_injective cap head k i hh hk (omega arith) (omega arith)))
      (window-set_ne slots cap head (suc i) n k h hh (omega arith) hk (omega arith))

-- A window and the slot behind it.
pub window-snoc :
    (slots : List ChunkHandle) (cap head i n : ℕ)
    → window slots cap head i (suc n)
      ≡ window slots cap head i n ++ (get_or slots ((head + (i + n)) % cap) no_handle ∷ [])
window-snoc slots cap head i zero =
    ap (λ k. get_or slots ((head + k) % cap) no_handle ∷ []) (omega arith)
window-snoc slots cap head i (suc n) = ap (◌∷◌ (get_or slots ((head + i) % cap) no_handle)) (
    window-snoc slots cap head (suc i) n
    ∙ ap (λ k. window slots cap head (suc i) n ++ (get_or slots ((head + k) % cap) no_handle ∷ []))
        (omega arith))

-- A window and a store right behind it.
pub window-set_snoc :
    (slots : List ChunkHandle) (cap head i n : ℕ) (h : ChunkHandle)
    → cap ≤ length slots
    → head < cap
    → i + n < cap
    → window (set slots ((head + (i + n)) % cap) h) cap head i (suc n)
      ≡ window slots cap head i n ++ (h ∷ [])
window-set_snoc slots cap head i n h hs hh hn =
    window-snoc _ cap head i n
    ∙ ap₂ (λ w x. w ++ (x ∷ []))
        (window-set_ne slots cap head i n (i + n) h hh (omega arith) hn (inr (omega arith)))
        (get_or-set_self slots _ h no_handle (omega (arith, mod-cases (head + (i + n)) cap)))

-- A window counted from the next head.
pub window-next :
    (slots : List ChunkHandle) (cap head i n : ℕ)
    → window slots cap ((head + 1) % cap) i n ≡ window slots cap head (suc i) n
window-next slots cap head i zero = refl
window-next slots cap head i (suc n) =
    ap₂ ◌∷◌
      (ap (λ k. get_or slots k no_handle)
        (mod-add-mod (head + 1) cap i ∙ ap (λ k. k % cap) (omega arith)))
      (window-next slots cap head (suc i) n)

-- Below the largest depth the 32-bit sum does not wrap.
pub next_index_lem : (q : Queue) (i : ℕ) → i < max_depth → next_index q i ≡ (i + 1) % q.capacity
next_index_lem q i h = ap (λ k. k % q.capacity) (omega arith)
