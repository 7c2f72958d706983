-- ===== src/Kernel/Macros.antt =====
-- The macros of os_kernel/include/os_reentry.h, os_task/include/os_task.h, os_sem/include/os_sem.h
-- and os_event/include/os_event.h by which a task gives up the processor. What follows the macro in
-- the task runs when the task is scheduled again.
pub mod Messages
pub mod Waits
pub mod Live
pub mod Safety
pub mod Frame
use coco_os.Base.{◌%◌, ℕ, Bool, true, not, List, ◌++◌, [], ◌∷◌}
use coco_os.Base.Tests.{◌==◌, if◌then◌else◌}
use coco_os.Base.Outcome.{Result, ok, ◌>>=◌}
use mathlib.Core.Option.{Option}
use coco_os.Config.{Config, no_tid, no_event}
use coco_os.Task.{
  os_task_kill, os_task_suspend, os_task_resume, os_task_wait_time_set, task_wait_sem_set,
}
use coco_os.Task.Fields.{os_task_internal_state_set}
use coco_os.Task.Semaphores.{os_task_waiting_this_semaphore, os_task_release_waiting_task}
use coco_os.Sem.{os_sem_larger_than_zero, os_sem_decrement, os_sem_increment}
use coco_os.System.{Os, on_tasks, on_sems}
use coco_os.System.Signals.{signal_from, os_wait_event, os_wait_multiple}

unfoldable pub os_free_tid : Os → Os
os_free_tid os = record os { running_tid = no_tid }

module _ (cfg : Config) where
  -- OS_YIELD; `line`, cut to the uint16_t of the parameter, is where the task goes on.
  unfoldable pub os_yield : ℕ → Os → Result Os
  os_yield line os =
      on_tasks (os_task_internal_state_set cfg os.running_tid (line % 65536)) os >>= λ os'.
      ok (os_free_tid os')

  -- OS_END
  pub os_end : Os → Result Os
  os_end os = on_tasks (os_task_kill cfg os.running_tid) os >>= λ os'. ok (os_free_tid os')

  -- OS_WAIT_TICKS
  pub os_wait_ticks : ℕ → ℕ → ℕ → Os → Result Os
  os_wait_ticks line ticks id os =
      on_tasks (os_task_wait_time_set cfg os.running_tid id ticks) os >>= os_yield line

  -- OS_SUSPEND_TASK and OS_RESUME_TASK
  pub suspend_task : ℕ → ℕ → Os → Result Os
  suspend_task line id os = do
    os' ← on_tasks (os_task_suspend cfg id) os
    if id == os'.running_tid then os_yield line os' else ok os'

  pub resume_task : ℕ → ℕ → Os → Result Os
  resume_task line id os = do
    os' ← on_tasks (os_task_resume cfg id) os
    if id == os'.running_tid then os_yield line os' else ok os'

  -- OS_WAIT_SEM; it names `os_task_wait_sem_set`, which os_task.c defines as `task_wait_sem_set`.
  pub os_wait_sem : ℕ → ℕ → Os → Result Os
  unfolding os_yield
  os_wait_sem line sem os = do
    free ← os_sem_larger_than_zero cfg sem os.sems
    if free
        then on_sems (os_sem_decrement cfg sem) os
        else on_tasks (task_wait_sem_set cfg os.running_tid sem) os >>= os_yield line

  -- OS_SIGNAL_SEM_NO_SCHEDULE
  pub signal_sem_no_schedule : ℕ → Os → Result Os
  signal_sem_no_schedule sem os = do
    waiting ← os_task_waiting_this_semaphore cfg sem os.tasks
    if not waiting
        then on_sems (os_sem_increment cfg sem) os
        else on_tasks (os_task_release_waiting_task cfg sem) os

  -- OS_SIGNAL_SEM
  pub os_signal_sem : ℕ → ℕ → Os → Result Os
  os_signal_sem line sem os = do
    waiting ← os_task_waiting_this_semaphore cfg sem os.tasks
    if not waiting
        then on_sems (os_sem_increment cfg sem) os
        else on_tasks (os_task_release_waiting_task cfg sem) os >>= os_yield line

  -- OS_WAIT_SINGLE_EVENT, OS_WAIT_MULTIPLE_EVENTS and OS_SIGNAL_EVENT
  pub wait_single_event : ℕ → ℕ → ℕ → Option (Os → Result Os) → Os → Result Os
  wait_single_event line event timeout call_back os =
      os_wait_event cfg os.running_tid event true timeout call_back os >>= os_yield line

  pub wait_multiple_events : ℕ → Bool → List ℕ → Os → Result Os
  wait_multiple_events line wait_all args os =
      os_wait_multiple cfg wait_all (args ++ no_event ∷ []) os >>= os_yield line

  pub signal_event : ℕ → ℕ → Os → Result Os
  signal_event line event os = signal_from cfg os.running_tid event os >>= os_yield line
