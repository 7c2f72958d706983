-- ===== src/Tests/Kernel.antt =====
-- The clocks, the semaphores, the creation of tasks and the loop of the kernel, on the small table.
use coco_os.Base.Tests.{◌==◌, if◌then◌else◌}
use coco_os.Base.{◌<◌, ◌≤◌, ℕ, ◌+◌, ◌≡◌, ◌⊎◌, inl, refl, arith, true, false, List, [], ◌∷◌}
use coco_os.Base.Outcome.{Result, ok, halt, assertion, Returns, ◌>>=◌}
use coco_os.Config.{Config}
use coco_os.Task.{Tasks, ready, waiting_time, waiting_sem, os_task_suspend, os_task_resume}
use coco_os.Task.Loop.{OneTask}
use coco_os.Task.Suspend.{resumed, os_task_resume-os_task_suspend}
use coco_os.Task.Semaphores.{os_task_release_waiting_task}
use coco_os.Task.Semaphores.Release.{
  Release, AllLast, Urgent, Longer, os_task_release_waiting_task-Urgent,
  os_task_release_waiting_task-Longer,
}
use coco_os.Task.Semaphores.Waiting.{NoneWaits}
use coco_os.Sem.{Sems}
use coco_os.Sem.Counter.{calls, HasCount, up, down, calls_lem}
use coco_os.Event.{Events}
use coco_os.MsgQueue.{Queues}
use coco_os.System.{Os}
use coco_os.System.Create.{TaskSpec, os_task_create}
use coco_os.System.NewTask.{
  CanCreate, Created, IsDistinct, os_task_create_lem, os_task_create-IsDistinct,
}
use coco_os.Kernel.{os_schedule, os_start}
use coco_os.Kernel.Clocks.{sub_ticks, sub_ticks-Delayed}
use coco_os.Config.{no_tid}
use coco_os.Base.Tests.{◌==◌, if◌then◌else◌}
use coco_os.Task.Schedule.RoundRobin.{IsNextReady}
use coco_os.Kernel.Schedule.{
  turned, os_schedule-IsNextReady, rounds, Scheduled, os_start-ends, os_start-goes_on,
  os_schedule_lem,
}
use coco_os.Kernel.Macros.Waits.{IsLive}
use coco_os.Kernel.Macros.Live.{acts, wait, signal, isr_signal, acts-IsLive}
use coco_os.Tests.Data.{small, table, task, message, queue}

os_task_resume-os_task_suspend_example :
    Returns (os_task_suspend small 2 table >>= os_task_resume small 2) (OneTask table resumed 2 2)
os_task_resume-os_task_suspend_example =
    os_task_resume-os_task_suspend small 2 table (omega arith) (omega arith) 2

-- The first task waits for a time, and the last two for the semaphore 0.
abbrev delayed : Tasks
delayed = record {
  task_list = λ i.
      if i == 0
      then record (task waiting_time 3) { time = 5; clock_id = 1 }
      else record (task waiting_sem (4 + i)) { time = i };
  n_tasks = 3;
  last_running_task = 0;
}

abbrev pub pool : Sems
pool = record { sem_list = λ i. record { max_value = 2; value = i }; n_semaphores = 2 }

abbrev no_events : Events
no_events = record {
  event_list = λ i. record { id = i; signaled_by_tid = 255 };
  n_events = 0;
  last_signaled_event = 255;
}

abbrev no_queues : Queues
no_queues = record {
  msg_q_list = λ i. record { task_id = 255; change = 0; q = queue };
  n_queues = 0;
}

abbrev pub waiting_os : Os
waiting_os = record {
  running = 1;
  running_tid = 0;
  tasks = delayed;
  sems = pool;
  events = no_events;
  queues = no_queues;
}

-- Three ticks of the clock 1 and then two, with ticks of another clock between them.
abbrev tick_calls : List (ℕ × ℕ)
tick_calls = (1, 3) ∷ (2, 9) ∷ (1, 2) ∷ []

sub_ticks-Delayed_example :
    Returns
      (sub_ticks small tick_calls waiting_os)
      (λ os'. ((os'.tasks.task_list 0).state ≡ ready) × ((os'.tasks.task_list 0).time ≡ 0))
sub_ticks-Delayed_example =
    sub_ticks-Delayed small tick_calls waiting_os 0 (omega arith, (omega arith, (omega arith, tt)))
      (omega arith) (omega arith) refl (omega arith)

os_task_release_waiting_task-Urgent_example :
    Returns (os_task_release_waiting_task small 0 delayed) (
      Release small 0 delayed
        (omega arith)
        (omega arith)
        (AllLast small 0 delayed (omega arith) (omega arith))
        Urgent)
os_task_release_waiting_task-Urgent_example =
    os_task_release_waiting_task-Urgent small 0 delayed (omega arith) (omega arith) refl

abbrev pub round_robin : Config
round_robin = record small { round_robin = true }

os_task_release_waiting_task-Longer_example :
    Returns
      (os_task_release_waiting_task round_robin 0 delayed)
      (Release round_robin 0 delayed (omega arith) (omega arith) (NoneWaits 0 delayed 0 3) Longer)
os_task_release_waiting_task-Longer_example =
    os_task_release_waiting_task-Longer round_robin 0 delayed (omega arith) (omega arith) refl

calls_lem_example :
    Returns (calls small (up 1 ∷ up 1 ∷ down 0 ∷ down 1 ∷ []) pool) (HasCount small pool 1 1)
calls_lem_example =
    calls_lem small (up 1 ∷ up 1 ∷ down 0 ∷ down 1 ∷ []) pool
      (omega arith, (omega arith, (omega arith, (omega arith, tt)))) 1

acts-IsLive_example :
    Returns
      (acts small (omega arith) (isr_signal 1 0 0 ∷ wait 1 7 0 ∷ signal 0 9 0 ∷ []) waiting_os)
      IsLive
acts-IsLive_example =
    acts-IsLive small (omega arith) (isr_signal 1 0 0 ∷ wait 1 7 0 ∷ signal 0 9 0 ∷ []) waiting_os
      ((omega arith, omega arith), ((omega arith, omega arith), ((omega arith, omega arith), tt)))
      (omega arith) (λ k j v hj. ground arith)

abbrev spec : TaskSpec
spec = record {
  taskproc = 4;
  data_ptr = 0;
  prio = 9;
  msg_pool = λ i. message 0 0 0;
  pool_size = 0;
  msg_size = 0;
}

-- Before the system runs, with two tasks in the table of three.
abbrev stopped : Os
stopped = record waiting_os { running = 0; tasks = record delayed { n_tasks = 2 } }

os_task_create_lem_example :
    (CanCreate small spec stopped
      × Returns (os_task_create small spec stopped) (Created small spec stopped))
    ⊎ (¬ CanCreate small spec stopped × (os_task_create small spec stopped ≡ halt assertion))
os_task_create_lem_example = os_task_create_lem small spec stopped refl (omega arith) (omega arith)

os_task_create-IsDistinct_example :
    (os_task_create small spec stopped ≡ halt assertion)
    ⊎ Returns (os_task_create small spec stopped) (λ r.
      IsDistinct r.1.tasks
      × (r.1.tasks.n_tasks ≤ 3)
      × ((j : ℕ) → j < 2 → r.1.tasks.task_list j ≡ delayed.task_list j))
os_task_create-IsDistinct_example =
    os_task_create-IsDistinct small spec stopped refl (omega arith) (omega arith)
      (λ i j lt hj. ground arith)

-- A user whose tasks and sleep do nothing.
abbrev pub idle : ℕ → Os → Result Os
idle p os = ok os

os_schedule_lem_example : Scheduled small idle ok waiting_os (os_schedule small idle ok waiting_os)
os_schedule_lem_example =
    os_schedule_lem small idle ok waiting_os
      (record {
        tasks = omega arith;
        queues = omega arith;
        semaphores = omega arith;
        events = omega arith;
      })
      refl (omega arith)

os_start-ends_example :
    os_start small idle ok 8 6 waiting_os
    ≡ (rounds (os_schedule small idle ok) 7 waiting_os >>= λ os'. ok (true, os'))
os_start-ends_example =
    os_start-ends small idle ok 6 8 waiting_os (omega arith) (omega arith) (omega arith)

os_start-goes_on_example :
    os_start small idle ok 8 0 waiting_os
    ≡ (rounds (os_schedule small idle ok) 8 waiting_os >>= λ os'. ok (false, os'))
os_start-goes_on_example = os_start-goes_on small idle ok 0 8 waiting_os (inl refl)

abbrev ready_os : Os
ready_os = record waiting_os { tasks = table }

os_schedule-IsNextReady_example :
    (tid : ℕ) × IsNextReady table tid
    × (os_schedule round_robin idle ok ready_os ≡ (
        if tid == no_tid
        then ok (turned round_robin idle ok ready_os tid)
        else idle 1 (turned round_robin idle ok ready_os tid)))
os_schedule-IsNextReady_example =
    os_schedule-IsNextReady round_robin idle ok ready_os
      (record {
        tasks = omega arith;
        queues = omega arith;
        semaphores = omega arith;
        events = omega arith;
      })
      refl (omega arith) (omega arith)
