-- ===== src/Tests/Macros.antt =====
-- OS_MSG_Q_POST and OS_MSG_Q_RECEIVE on the queue of the running task.
use coco_os.Base.{◌≡◌, ◌<◌, refl, arith}
use coco_os.System.{Os}
use coco_os.System.Invariant.{IsWell}
use coco_os.Base.Arrays.{for_range}
use coco_os.Task.{os_task_init, modify, task_at}
use coco_os.Task.Events.{os_task_clear_wait_queue}
use coco_os.Sem.{os_sem_init}
use coco_os.Event.{os_event_init, event_create}
use coco_os.MsgQueue.{os_msg_q_init}
use coco_os.System.Create.{check_prio, os_task_create}
use coco_os.System.Messages.{os_msg_q_create}
use coco_os.Task.Schedule.{highest_prio_ready_task}
use coco_os.Kernel.{os_init, pick}
use coco_os.Kernel.Calls.{call}
use coco_os.Kernel.Calls.Safety.{Reachable-IsWell}
use coco_os.Tests.Data.{small, message}
use coco_os.Tests.Calls.{small-IsSound, scheduled, scheduled-Reachable, runs}
use coco_os.Base.{◌+◌, ◌≢◌, [], ◌∷◌}
use coco_os.Base.Lists.{length}
use coco_os.Base.Outcome.{Returns}
use mathlib.Core.Option.{none, some}
use coco_os.MsgQueue.{os_msg_q_find, find_from, set_queue}
use coco_os.MsgQueue.Span.{contents, span, window}
use coco_os.MsgQueue.Receive.{deliver}
use coco_os.System.Messages.Safety.{set_queue-Keeps}
use coco_os.Kernel.Macros.Messages.{os_msg_q_post, os_msg_q_receive}
use coco_os.Kernel.Macros.Messages.Delivery.{
  target_queue, Moved, after_post, os_msg_q_post-Moved, os_msg_q_receive-Moved,
}
use coco_os.Tests.Data.{queue}

-- The running task posts to its own queue, and receives from it where it holds two messages.
scheduled-IsWell : IsWell small scheduled
scheduled-IsWell = Reachable-IsWell small small-IsSound scheduled scheduled-Reachable

found : os_msg_q_find small 0 scheduled.queues < scheduled.queues.n_queues
unfolding call os_init for_range os_task_init modify os_event_init os_msg_q_init os_sem_init
    os_task_create check_prio task_at os_msg_q_create event_create os_task_clear_wait_queue pick
    highest_prio_ready_task os_msg_q_find find_from
found = omega arith

room :
    length (
        contents (
          target_queue small small-IsSound 10 0
            (message 7 0 0)
            scheduled
            scheduled-IsWell
            runs
            scheduled))
      + 1
    ≢ (target_queue small small-IsSound 10 0
        (message 7 0 0)
        scheduled
        scheduled-IsWell
        runs
        scheduled).size
unfolding call os_init for_range os_task_init modify os_event_init os_msg_q_init os_sem_init
    os_task_create check_prio task_at os_msg_q_create event_create os_task_clear_wait_queue pick
    highest_prio_ready_task os_msg_q_find find_from span window
room = omega arith

os_msg_q_post-Moved_example : Returns (os_msg_q_post small 10 0 (message 7 0 0) 2 0 0 scheduled) (
    Moved small small-IsSound 10 0 (message 7 0 0) scheduled scheduled-IsWell runs (message 7 2 0) (
      after_post small small-IsSound 10 0
        (message 7 0 0)
        scheduled
        scheduled-IsWell
        runs
        found
        2
        0))
os_msg_q_post-Moved_example =
    os_msg_q_post-Moved small small-IsSound 10 0 (message 7 0 0) scheduled scheduled-IsWell runs
      found 2 0 0 room

abbrev stocked : Os
stocked = record scheduled { queues = set_queue 0 queue scheduled.queues }

stocked-IsWell : IsWell small stocked
stocked-IsWell =
    (set_queue-Keeps small small-IsSound 0 queue scheduled scheduled-IsWell (omega arith)).0

stocked_runs : stocked.running_tid < stocked.tasks.n_tasks
unfolding call os_init for_range os_task_init modify os_event_init os_msg_q_init os_sem_init
    os_task_create check_prio task_at os_msg_q_create event_create os_task_clear_wait_queue pick
    highest_prio_ready_task
stocked_runs = omega arith

stocked_found : os_msg_q_find small 0 stocked.queues < stocked.queues.n_queues
unfolding call os_init for_range os_task_init modify os_event_init os_msg_q_init os_sem_init
    os_task_create check_prio task_at os_msg_q_create event_create os_task_clear_wait_queue pick
    highest_prio_ready_task os_msg_q_find find_from
stocked_found = omega arith

due :
    deliver
      (contents (
        target_queue small small-IsSound 10 0
          (message 0 0 0)
          stocked
          stocked-IsWell
          stocked_runs
          stocked))
      []
    ≡ some (message 20 9 9, message 10 5 0 ∷ message 20 9 9 ∷ [])
unfolding call os_init for_range os_task_init modify os_event_init os_msg_q_init os_sem_init
    os_task_create check_prio task_at os_msg_q_create event_create os_task_clear_wait_queue pick
    highest_prio_ready_task os_msg_q_find find_from span window deliver
due = refl

os_msg_q_receive-Moved_example :
    Returns (os_msg_q_receive small 10 0 (message 0 0 0) 0 none stocked) (
      Moved small small-IsSound 10 0
        (message 0 0 0)
        stocked
        stocked-IsWell
        stocked_runs
        (message 20 9 9)
        (message 10 5 0 ∷ message 20 9 9 ∷ []))
os_msg_q_receive-Moved_example =
    os_msg_q_receive-Moved small small-IsSound 10 0 (message 0 0 0) stocked stocked-IsWell
      stocked_runs stocked_found (message 20 9 9) (message 10 5 0 ∷ message 20 9 9 ∷ []) 0 none due
