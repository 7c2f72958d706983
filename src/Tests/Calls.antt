-- ===== src/Tests/Calls.antt =====
-- A program: it initialises the kernel, creates a task with a message queue, is
-- scheduled, and the task posts to itself.
use coco_os.Base.{ℕ, ◌<◌, inr, refl, arith}
use coco_os.Base.Outcome.{Result, ok, halt, Safe, Safe_mono}
use coco_os.System.{Os}
use coco_os.System.Invariant.{IsSound}
use coco_os.System.Create.{TaskSpec}
use coco_os.Base.Arrays.{for_range}
use coco_os.Task.{os_task_init, modify, task_at}
use coco_os.Task.Events.{os_task_clear_wait_queue}
use coco_os.Sem.{os_sem_init}
use coco_os.Event.{os_event_init, event_create}
use coco_os.MsgQueue.{os_msg_q_init}
use coco_os.System.Create.{check_prio, os_task_create}
use coco_os.System.Messages.{os_msg_q_create}
use coco_os.Task.Schedule.{highest_prio_ready_task}
use coco_os.Kernel.{os_start, os_start_locking, os_tick, os_init, pick}
use coco_os.Kernel.Calls.{
  yield, task_call, Call, in_task, create_task, schedule, post, call, Reachable, init, step,
}
use coco_os.Kernel.Calls.Safety.{task_call-Frees, Reachable-IsWell}
use coco_os.Kernel.Schedule.Running.{IsTame, IsTameTask, IsManned, os_start-IsManned}
use coco_os.System.Tick.Safety.{task_tick-Keeps}
use coco_os.Tests.Data.{small, message}
use coco_os.Tests.Kernel.{waiting_os}

pub small-IsSound : IsSound small
small-IsSound = record {
  static = record {
    tasks = omega arith;
    queues = omega arith;
    semaphores = omega arith;
    events = omega arith;
  };
  roomy = λ e h. omega arith;
}

abbrev pub value : Result Os → Os
value (ok os) = os
value (halt e) = waiting_os

abbrev pub receiver : TaskSpec
receiver = record {
  taskproc = 1;
  data_ptr = 0;
  prio = 3;
  msg_pool = λ i. message 0 0 0;
  pool_size = 3;
  msg_size = 12;
}

abbrev sent : Call
sent = in_task 10 (post 0 (message 7 0 0) 2 0 0)

abbrev pub booted : Os
booted = value (os_init small waiting_os)

abbrev pub created : Os
created = value (call small (create_task receiver) booted)

abbrev pub scheduled : Os
scheduled = value (call small schedule created)

booted-Reachable : Reachable small small-IsSound booted
unfolding os_init for_range os_task_init modify os_event_init os_msg_q_init os_sem_init
booted-Reachable = init waiting_os (refl, refl) refl

pub created-Reachable : Reachable small small-IsSound created
unfolding call os_init for_range os_task_init modify os_event_init os_msg_q_init os_sem_init
    os_task_create check_prio task_at os_msg_q_create event_create os_task_clear_wait_queue
created-Reachable =
    step booted (create_task receiver) booted-Reachable (inr (omega arith, omega arith)) refl

pub scheduled-Reachable : Reachable small small-IsSound scheduled
unfolding call os_init for_range os_task_init modify os_event_init os_msg_q_init os_sem_init
    os_task_create check_prio task_at os_msg_q_create event_create os_task_clear_wait_queue pick
    highest_prio_ready_task
scheduled-Reachable = step created schedule created-Reachable (inr refl) refl

pub runs : scheduled.running_tid < scheduled.tasks.n_tasks
unfolding call os_init for_range os_task_init modify os_event_init os_msg_q_init os_sem_init
    os_task_create check_prio task_at os_msg_q_create event_create os_task_clear_wait_queue pick
    highest_prio_ready_task
runs = omega arith

-- A task that yields, and a clock that ticks before each schedule.
abbrev yields : ℕ → Os → Result Os
yields taskproc = task_call small 10 yield

yields-IsTameTask : (taskproc : ℕ) → IsTameTask small (yields taskproc)
yields-IsTameTask taskproc os m runs =
    Safe_mono (task_call small 10 yield os) _ _
      (task_call-Frees small small-IsSound 10 yield os m.0 runs tt) (λ os' k. (k.0, inr refl))

ticks-IsTame : IsTame small (os_tick small)
unfolding os_tick
ticks-IsTame os m =
    Safe_mono (os_tick small os) _ _ (task_tick-Keeps small small-IsSound 0 1 os m.0)
      (λ os' k. (k.0, inr refl))

os_start-IsManned_example :
    Safe (os_start small yields ok 9 0 created) (λ r. IsManned small r.1)
    × Safe
        (os_start_locking small yields ok (os_tick small) ok 9 0 created)
        (λ r. IsManned small r.1)
os_start-IsManned_example =
    os_start-IsManned small small-IsSound yields ok yields-IsTameTask (λ os m. m) (os_tick small) ok
      9 0 created ticks-IsTame (λ os m. m)
      (Reachable-IsWell small small-IsSound created created-Reachable, inr refl)
