-- ===== src/Task/Events/Waiting.antt =====
-- The event wait queue of a task, os_task/src/os_task.c, as the set of the events it awaits.
use coco_os.Base.{
  ℕ, zero, suc, ◌+◌, ◌*◌, ◌/◌, ◌%◌, ◌<◌, ◌≡◌, ◌↔◌, refl, true, false, ◌||◌, ◌&&◌, not, arith,
}
use coco_os.Base.Tests.{ltb, ◌==◌, if◌then◌else◌}
use coco_os.Base.Bits.{
  has_bit, has_bit-set_bit, has_bit-clear_bit, set_bit-lt, clear_bit-lt, has_bit-zero,
  zero_of_has_bit,
}
use coco_os.Base.Arrays.{update}
use coco_os.Config.{Config, event_queue_size}
use coco_os.Task.{Tcb, fill}
use coco_os.Task.Events.{awaits, add_event, drop_event, clear_wait_queue, no_byte_set}

-- Each cell of the wait queue holds a byte.
abbrev pub HasBytes : Tcb → Type 0
HasBytes t = (j : ℕ) → t.event_queue j < 256

pub awaits-add_event :
    (t : Tcb) (e f : ℕ) → HasBytes t → awaits (add_event e t) f ≡ (e == f || awaits t f)
awaits-add_event t e f h =
    ground (arith, has_bit-set_bit (t.event_queue (e / 8)) (e % 8) (f % 8) (h (e / 8)))

pub awaits-drop_event :
    (t : Tcb) (e f : ℕ) → HasBytes t → awaits (drop_event e t) f ≡ (not (e == f) && awaits t f)
awaits-drop_event t e f h =
    ground (arith, has_bit-clear_bit (t.event_queue (e / 8)) (e % 8) (f % 8) (h (e / 8)))

pub add_event-HasBytes : (t : Tcb) (e : ℕ) → HasBytes t → HasBytes (add_event e t)
add_event-HasBytes t e h j =
    ground (arith, set_bit-lt (t.event_queue (e / 8)) (e % 8) (h (e / 8)), h j)

pub drop_event-HasBytes : (t : Tcb) (e : ℕ) → HasBytes t → HasBytes (drop_event e t)
drop_event-HasBytes t e h j =
    ground (arith, clear_bit-lt (t.event_queue (e / 8)) (e % 8) (h (e / 8)), h j)

pub fill_lem : (n v : ℕ) (q : ℕ → ℕ) (j : ℕ) → fill n v q j ≡ (if ltb j n then v else q j)
unfolding fill
fill_lem zero v q j = ground arith
fill_lem (suc n) v q j = ground (arith, fill_lem n v (update q n v) j)

no_byte_set-suc :
    (n : ℕ) (q : ℕ → ℕ) → no_byte_set (suc n) q ≡ true → (q n ≡ 0) × (no_byte_set n q ≡ true)
unfolding no_byte_set
no_byte_set-suc n q h = ground arith

pub no_byte_set-zero : (n : ℕ) (q : ℕ → ℕ) → no_byte_set n q ≡ true → (j : ℕ) → j < n → q j ≡ 0
no_byte_set-zero zero q h j hj = absurd (omega arith)
no_byte_set-zero (suc n) q h j hj =
    let (here, rest) = no_byte_set-suc n q h in ground (arith, here, no_byte_set-zero n q rest j)

pub no_byte_set_of_zero : (n : ℕ) (q : ℕ → ℕ) → ((j : ℕ) → j < n → q j ≡ 0) → no_byte_set n q ≡ true
unfolding no_byte_set
no_byte_set_of_zero zero q h = refl
no_byte_set_of_zero (suc n) q h =
    ground (arith, h n, no_byte_set_of_zero n q (λ j hj. h j (omega arith)))

module _ (cfg : Config) (t : Tcb) where
  pub clear_wait_queue-HasBytes : HasBytes t → HasBytes (clear_wait_queue cfg t)
  clear_wait_queue-HasBytes h j =
      ground (arith, fill_lem (event_queue_size cfg) 0 t.event_queue j, h j)

  pub awaits-clear_wait_queue :
      (e : ℕ) → e / 8 < event_queue_size cfg → awaits (clear_wait_queue cfg t) e ≡ false
  awaits-clear_wait_queue e h =
      ground (arith, fill_lem (event_queue_size cfg) 0 t.event_queue (e / 8), has_bit-zero (e % 8))

  -- The scan of the wait queue finds no byte just when the task awaits none of the events that the
  -- queue has a bit for.
  pub no_byte_set_iff :
      HasBytes t
      → (no_byte_set (event_queue_size cfg) t.event_queue ≡ true)
        ↔ ((e : ℕ) → e / 8 < event_queue_size cfg → awaits t e ≡ false)
  no_byte_set_iff h = (
    λ z e he. ground (
      arith,
      no_byte_set-zero (event_queue_size cfg) t.event_queue z (e / 8) he,
      has_bit-zero (e % 8),
    ),
    λ none.
        no_byte_set_of_zero (event_queue_size cfg) t.event_queue
          (λ j hj. zero_of_has_bit (t.event_queue j) (h j) (λ k hk. bit none j k hj hk)),
  )
    where
      bit :
          ((e : ℕ) → e / 8 < event_queue_size cfg → awaits t e ≡ false)
          → (j k : ℕ) → j < event_queue_size cfg
          → k < 8
          → has_bit (t.event_queue j) k ≡ false
      bit none j k hj hk =
          let q : (j * 8 + k) / 8 ≡ j = omega arith in
          let r : (j * 8 + k) % 8 ≡ k = omega arith in rw (q, r) at (none (j * 8 + k) (omega arith))
