-- ===== src/System/Messages/OneSlot.antt =====
-- os_msgqueue/src/os_msgqueue.c: a queue with a single slot, whose head is past the slot.
use coco_os.Base.{ℕ, zero, suc, ◌≡◌, ◌≢◌, refl, arith}
use coco_os.Base.Outcome.{halt, ok, spinning}
use coco_os.Config.{Config}
use coco_os.System.{Os}
use coco_os.System.Messages.{tick_message, tick_from}

module _ (cfg : Config) (queue : ℕ) (os : Os) where
  still :
      ((os.queues.msg_q_list queue).q).size ≡ 1
      → (((os.queues.msg_q_list queue).q).list 0).delay ≡ 0
      → tick_message cfg queue 0 os ≡ ok os
  unfolding tick_message
  still one now = ground arith

  -- The loop of `os_msgQ_tick` never meets the head of a queue with one slot, unless that is the slot:
  -- with a message in the slot that is due, and however many rounds are allowed, it is still running.
  pub tick_from-spins :
      (head fuel : ℕ)
      → head ≢ 0
      → ((os.queues.msg_q_list queue).q).size ≡ 1
      → (((os.queues.msg_q_list queue).q).list 0).delay ≡ 0
      → tick_from cfg fuel queue head 0 os ≡ halt spinning
  unfolding tick_from
  tick_from-spins head zero nz one now = refl
  tick_from-spins head (suc fuel) nz one now =
      ground (arith, still one now, tick_from-spins head fuel nz one now)
