-- ===== src/Kernel/Macros/Messages/Change.antt =====
-- os_msgqueue/include/os_msgqueue.h: `event_wait( event )` in OS_MSG_Q_POST and OS_MSG_Q_RECEIVE.
use coco_os.Base.{◌%◌, ℕ, ◌/◌, ◌≤◌, ◌<◌, ◌≡◌, ◌≢◌, refl, true, false, arith}
use coco_os.Base.Tests.{◌==◌, lt→ltb}
use coco_os.Base.Outcome.{Returns}
use mathlib.Core.Option.{none}
use coco_os.Config.{Config, total_events, event_queue_size, no_tid}
use coco_os.Event.{no_events, os_event_set_signaling_tid}
use coco_os.Task.{Tcb, modify, waiting_event}
use coco_os.Task.Fields.{os_task_set_msg_result, os_task_internal_state_set}
use coco_os.Task.Events.{add_event, os_task_wait_event}
use coco_os.MsgQueue.{Status}
use coco_os.System.{Os}
use coco_os.System.Signals.{os_wait_event}
use coco_os.Kernel.Macros.{os_yield, os_free_tid, wait_single_event}
use coco_os.Kernel.Macros.Messages.{status_code, wait_for_change}

module _ (cfg : Config) (line event : ℕ) (s : Status) where
  -- The running task, once it waits.
  abbrev pub waits_with : Tcb → Tcb
  waits_with t = record (add_event event t) {
    msg_result = status_code s;
    wait_single_event = true;
    state = waiting_event;
    internal_state = line % 65536;
  }

  -- The running task waits for the event, and no task runs; nothing else has changed.
  abbrev pub Waits : Os → Os → Type 0
  Waits os os' =
      (os'.queues ≡ os.queues)
      × (os'.tasks.n_tasks ≡ os.tasks.n_tasks)
      × (os'.events.n_events ≡ os.events.n_events)
      × (os'.running_tid ≡ no_tid)
      × (os'.tasks.task_list os.running_tid ≡ waits_with (os.tasks.task_list os.running_tid))
      × ((j : ℕ) → j ≢ os.running_tid → os'.tasks.task_list j ≡ os.tasks.task_list j)

  pub wait_for_change-Waits :
      (os : Os)
      → os.running_tid < os.tasks.n_tasks
      → os.tasks.n_tasks ≤ cfg.max_tasks
      → event < os.events.n_events
      → event < total_events cfg
      → event / 8 < event_queue_size cfg
      → Returns (wait_for_change cfg line s none event os) (Waits os)
  unfolding os_task_set_msg_result wait_single_event os_wait_event os_event_set_signaling_tid
      os_task_wait_event os_yield os_task_internal_state_set modify os_free_tid
  wait_for_change-Waits os runs le known total fits =
      let small = lt→ltb os.running_tid cfg.max_tasks (omega arith) in
      let inside = lt→ltb os.running_tid os.tasks.n_tasks runs in
      let some_there : no_events cfg ≡ false = ground arith in
      let there = lt→ltb event os.events.n_events known in
      let listed = lt→ltb event (total_events cfg) total in
      let room = lt→ltb (event / 8) (event_queue_size cfg) fits in
      let self : (os.running_tid == os.running_tid) ≡ true = ground arith in
      simp (small, inside, some_there, there, listed, room)
        (
          refl,
          refl,
          refl,
          refl,
          simp (self),
          λ j ne. let other : (os.running_tid == j) ≡ false = ground (arith, ne) in simp (other),
        )
