-- ===== src/Queue/Fifo.antt =====
-- What a subscriber queue promises: a bounded list of handles, oldest first, with a policy for
-- the full queue. Independent of the ring in shared memory.
use cpp_robot_middleware.Prelude.{
  ℕ, Bool, true, false, not, ◌&&◌, List, [], ◌∷◌, ◌++◌, Option, none, some, length, ◌==◌,
  if◌then◌else◌,
}
use cpp_robot_middleware.ErrorCode.{drop_newest}
use cpp_robot_middleware.Handle.{ChunkHandle}
use cpp_robot_middleware.Queue.Enqueue.{
  EnqueueStatus, accepted, dropped_newest, notification_failed,
}

abbrev pub is_empty : List ChunkHandle → Bool
is_empty [] = true
is_empty (x ∷ xs) = false

abbrev pub wake_fails : Option Bool → Bool
wake_fails none = false
wake_fails (some sent) = not sent

-- Room is made at the front, and the handle goes to the back.
abbrev pub replace_oldest : ChunkHandle → List ChunkHandle → List ChunkHandle × Option ChunkHandle
replace_oldest h [] = (h ∷ [], none)
replace_oldest h (x ∷ xs) = (xs ++ (h ∷ []), some x)

-- One handle offered to a queue that drops. A first handle whose wake-up message is not sent is
-- taken back.
unfoldable pub offer :
    ℕ
    → ℕ
    → ChunkHandle
    → Option Bool
    → List ChunkHandle
    → List ChunkHandle × EnqueueStatus × Option ChunkHandle
offer cap policy h notify xs =
    if length xs == cap
    then if policy == drop_newest
      then (xs, dropped_newest, none)
      else ((replace_oldest h xs).0, accepted, (replace_oldest h xs).1)
    else if is_empty xs && wake_fails notify
    then (xs, notification_failed, none)
    else (xs ++ (h ∷ []), accepted, none)

unfoldable pub poll : List ChunkHandle → List ChunkHandle × Option ChunkHandle
poll [] = ([], none)
poll (x ∷ xs) = (xs, some x)
