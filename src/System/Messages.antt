-- ===== src/System/Messages.antt =====
-- os_msgqueue/src/os_msgqueue.c: the functions on queues that create or signal an event.
pub mod OneSlot
pub mod Aging
pub mod Ticking
pub mod Safety
pub mod Frame
pub mod TickSafety
use coco_os.Base.{ℕ, zero, suc, ◌+◌, ◌-◌}
use coco_os.Base.Tests.{ltb, ◌==◌, if◌then◌else◌}
use coco_os.Base.Arrays.{update}
use coco_os.Base.Outcome.{Result, ok, halt, spinning, os_assert, in_range, ◌>>=◌, ◌>>◌}
use coco_os.Config.{Config}
use coco_os.Event.{event_create}
use coco_os.MsgQueue.{Msg, no_queues, next_slot, read_slot, write_slot, set_queue}
use coco_os.System.{Os}
use coco_os.System.Signals.{event_isr_signal}

module _ (cfg : Config) where
  -- The first argument is what the buffer holds.
  unfoldable pub os_msg_q_create : (ℕ → Msg) → ℕ → ℕ → ℕ → Os → Result (ℕ × Os)
  os_msg_q_create buffer n_messages msg_size task_id os = if no_queues cfg then ok (0, os) else do
    os_assert (ltb os.queues.n_queues cfg.max_queues)
    let n = os.queues.n_queues
    (event, es) ← event_create cfg os.events
    ok (
      n,
      record os {
        events = es;
        queues = record {
          msg_q_list = update os.queues.msg_q_list n (record {
            q = record {
              list = buffer;
              head = 1;
              tail = 0;
              size = n_messages;
              message_size = msg_size;
            };
            task_id = task_id;
            change = event;
          });
          n_queues = n + 1;
        };
      },
    )

  -- One message of the loop of `os_msgQ_tick`.
  pub tick_message : ℕ → ℕ → Os → Result Os
  tick_message queue next os = do
    let q = (os.queues.msg_q_list queue).q
    m ← read_slot q next
    if ltb 0 m.delay
        then (do
          q' ← write_slot q next (record m { delay = m.delay - 1 })
          let os' = record os { queues = set_queue queue q' os.queues }
          if m.delay - 1 == 0
              then event_isr_signal cfg (os.queues.msg_q_list queue).change os'
              else ok os')
        else ok os

  -- The loop, with the head that was read before it.
  pub tick_from : ℕ → ℕ → ℕ → ℕ → Os → Result Os
  tick_from zero queue head next os = halt spinning
  tick_from (suc fuel) queue head next os =
      let rest = tick_message queue next os >>= λ os'.
      next_slot (os'.queues.msg_q_list queue).q next >>= λ n. tick_from fuel queue head n os' in
      if next == head then ok os else rest

  -- Each round visits another slot, so one more than there are slots is enough.
  pub os_msg_q_tick : ℕ → Os → Result Os
  os_msg_q_tick queue os = if no_queues cfg then ok os else do
    in_range (ltb queue cfg.max_queues)
    let q = (os.queues.msg_q_list queue).q
    next ← next_slot q q.tail
    tick_from (q.size + 1) queue q.head next os
