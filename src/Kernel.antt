-- ===== src/Kernel.antt =====
-- os_kernel/src/os_kernel.c: initialisation, scheduling and the clocks, and os_kernel/src/os_cbk.c.
-- A task procedure is the user's code: `run` gives what the procedure behind a function pointer does.
pub mod Macros
pub mod Clocks
pub mod Schedule
pub mod Safety
pub mod Calls
pub mod Api
use coco_os.Base.{◌%◌, ℕ, zero, suc, ◌+◌, ◌≤◌, Bool, not}
use coco_os.Base.Tests.{ltb, leb, ◌==◌, if◌then◌else◌}
use coco_os.Base.Outcome.{Result, ok, os_assert, ◌>>=◌, ◌>>◌}
use coco_os.Config.{Config, no_tid}
use coco_os.Task.{os_task_init, task_at}
use coco_os.Task.Schedule.{highest_prio_ready_task, next_ready_task}
use coco_os.Sem.{os_sem_init}
use coco_os.Event.{os_event_init}
use coco_os.MsgQueue.{os_msg_q_init}
use coco_os.System.{Os, on_tasks}
use coco_os.System.Tick.{task_tick, u32_mod}

module _ (cfg : Config) where
  unfoldable pub os_init : Os → Result Os
  os_init os = on_tasks (os_task_init cfg) (record os {
    running_tid = no_tid;
    running = 0;
    sems = os_sem_init cfg os.sems;
    events = os_event_init cfg os.events;
    queues = os_msg_q_init cfg os.queues;
  })

  unfoldable pub os_tick : Os → Result Os
  os_tick = task_tick cfg 0 1

  pub os_sub_tick : ℕ → Os → Result Os
  os_sub_tick id os = if not (id == 0) then task_tick cfg id 1 os else ok os

  pub os_sub_n_tick : ℕ → ℕ → Os → Result Os
  os_sub_n_tick id n_ticks os = if not (id == 0) then task_tick cfg id n_ticks os else ok os

  -- The build's scheduler: the next running task, and the state that it leaves.
  unfoldable pub pick : Os → Result Os
  pick os =
      if cfg.round_robin
      then (next_ready_task cfg os.tasks >>= λ ts.
          ok (record os { tasks = ts; running_tid = ts.last_running_task }))
      else (highest_prio_ready_task cfg os.tasks >>= λ tid. ok (record os { running_tid = tid }))

  module _ (run : ℕ → Os → Result Os) (os_cbk_sleep : Os → Result Os) where
    pub task_run : Os → Result Os
    task_run os = do
      os_assert (ltb os.running_tid os.tasks.n_tasks)
      t ← task_at cfg os.running_tid os.tasks
      run t.taskproc os

    pub os_schedule : Os → Result Os
    unfolding pick task_run
    os_schedule os = do
      os' ← pick (record os { running_tid = no_tid })
      if not (os'.running_tid == no_tid) then task_run os' else os_cbk_sleep os'

    -- `for ( uint32_t i = 0; i <= tick_limit; ) { schedule(); if ( tick_limit != 0 ) i++; }` for
    -- `fuel` rounds; the flag says whether the loop has ended.
    pub schedule_loop : (Os → Result Os) → ℕ → ℕ → ℕ → Os → Result (Bool × Os)
    schedule_loop schedule zero tick_limit i os = ok (not (leb i tick_limit), os)
    schedule_loop schedule (suc fuel) tick_limit i os =
        let rest = schedule os >>= λ os'.
        schedule_loop schedule fuel tick_limit
          (if not (tick_limit == 0) then (i + 1) % u32_mod else i) os' in
        if leb i tick_limit then rest else ok (not (leb i tick_limit), os)

    pub os_start : ℕ → ℕ → Os → Result (Bool × Os)
    os_start fuel tick_limit os =
        schedule_loop os_schedule fuel tick_limit 0 (record os { running = 1 })

    pub os_start_locking : (Os → Result Os) → (Os → Result Os) → ℕ → ℕ → Os → Result (Bool × Os)
    os_start_locking lock unlock fuel tick_limit os =
        schedule_loop (λ os. lock os >>= os_schedule >>= unlock) fuel tick_limit 0
          (record os { running = 1 })
