-- ===== src/Queue/Blocking.antt =====
-- The wait of BLOCK_WITH_TIMEOUT in `enqueue`. What other processes do while the mutex is given up is
-- an arbitrary change of the queue; hypotheses on it are named here.
use cpp_robot_middleware.Prelude.{
  ◌≡◌, ◌≢◌, ◌⊎◌, inl, inr, refl, true, false, ◌&&◌, List, [], ◌∷◌, none, some, ◌==◌, Bool-cases,
}
use cpp_robot_middleware.Queue.{Queue}
use cpp_robot_middleware.Queue.Clock.{Timespec}
use cpp_robot_middleware.Queue.Enqueue.{
  Wait, WaitError, woken, deadline_passed, failed, WaitEnd, room_or_closed, expired, broken,
  wait_for_room, wait_ended, Looped, owner_dead,
}
use cpp_robot_middleware.Queue.Invariant.{IsValid, reset-IsValid}

-- The other processes keep the ring valid in every wait.
abbrev pub Keeps : List Wait → Type 0
Keeps [] = Unit {0}
Keeps (w ∷ ws) = ((q : Queue) → IsValid q → IsValid (w.others q)) × Keeps ws

-- One of the waits meets the deadline.
abbrev pub TimesOut : List Wait → Type 0
TimesOut [] = ⊥
TimesOut (w ∷ ws) = (w.error ≡ deadline_passed) ⊎ TimesOut ws

-- What the loop left behind: a valid ring, and room or a closed queue where it says so.
pub record Left (out : Queue × WaitEnd × Timespec) : Type 0 where
  pub valid : IsValid out.0
  pub reason : out.1 ≡ room_or_closed → (out.0.size == out.0.capacity && out.0.closed == 0) ≡ false

abbrev pub WhenLeft : Looped → Type 0
WhenLeft none = Unit {0}
WhenLeft (some out) = Left out

abbrev pub Returns : Looped → Type 0
Returns r = (out : Queue × WaitEnd × Timespec) × (r ≡ some out)

Left-early :
    (q : Queue) (how : WaitEnd) (now : Timespec)
    → how ≢ room_or_closed
    → IsValid q
    → Left (q, how, now)
Left-early q how now h v = record { valid = v; reason = λ e. absurd (h e) }

wait_ended-Left :
    (err : WaitError) (again : Queue → Looped) (now : Timespec) (q : Queue)
    → ((r : Queue) → IsValid r → WhenLeft (again r))
    → IsValid q
    → WhenLeft (wait_ended err again now q)
unfolding wait_ended
wait_ended-Left woken again now q ih v = ih q v
wait_ended-Left deadline_passed again now q ih v = Left-early q expired now (λ e. cc) v
wait_ended-Left failed again now q ih v = Left-early q broken now (λ e. cc) v
wait_ended-Left (owner_dead true) again now q ih v = ih _ (reset-IsValid v)
wait_ended-Left (owner_dead false) again now q ih v =
    Left-early _ broken now (λ e. cc) (reset-IsValid v)

pub wait_for_room-Left :
    (waits : List Wait) (now : Timespec) (q : Queue)
    → Keeps waits
    → IsValid q
    → WhenLeft (wait_for_room waits now q)
unfolding wait_for_room
wait_for_room-Left [] now q k v = elim (Bool-cases (q.size == q.capacity && q.closed == 0)) [
  | inl e ↦ rw e tt
  | inr e ↦ rw e (record { valid = v; reason = λ _. e })
]
wait_for_room-Left (w ∷ ws) now q k v = elim (Bool-cases (q.size == q.capacity && q.closed == 0)) [
  | inl e ↦ rw e (
      wait_ended-Left w.error (wait_for_room ws w.now) w.now (w.others q)
        (λ r. wait_for_room-Left ws w.now r k.1) (k.0 q v))
  | inr e ↦ rw e (record { valid = v; reason = λ _. e })
]

wait_ended-total :
    (err : WaitError) (again : Queue → Looped) (now : Timespec) (q : Queue)
    → (err ≡ deadline_passed) ⊎ ((r : Queue) → Returns (again r))
    → Returns (wait_ended err again now q)
unfolding wait_ended
wait_ended-total woken again now q (inl e) = cc
wait_ended-total woken again now q (inr ih) = ih q
wait_ended-total deadline_passed again now q t = (_, refl)
wait_ended-total failed again now q t = (_, refl)
wait_ended-total (owner_dead true) again now q (inl e) = cc
wait_ended-total (owner_dead true) again now q (inr ih) = ih _
wait_ended-total (owner_dead false) again now q t = (_, refl)

wait_round :
    (w : Wait) (ws : List Wait) (now : Timespec) (q : Queue)
    → (w.error ≡ deadline_passed) ⊎ ((r : Queue) → Returns (wait_for_room ws w.now r))
    → Returns (wait_for_room (w ∷ ws) now q)
unfolding wait_for_room
wait_round w ws now q t = elim (Bool-cases (q.size == q.capacity && q.closed == 0)) [
  | inl e ↦ rw e (wait_ended-total w.error (wait_for_room ws w.now) w.now (w.others q) t)
  | inr e ↦ rw e (_, refl)
]

-- The loop ends, at the latest when a wait meets the deadline.
pub wait_for_room-total :
    (waits : List Wait) (now : Timespec) (q : Queue)
    → TimesOut waits
    → Returns (wait_for_room waits now q)
unfolding wait_for_room
wait_for_room-total [] now q t = absurd t
wait_for_room-total (w ∷ ws) now q (inl t) = wait_round w ws now q (inl t)
wait_for_room-total (w ∷ ws) now q (inr t) =
    wait_round w ws now q (inr (λ r. wait_for_room-total ws w.now r t))
