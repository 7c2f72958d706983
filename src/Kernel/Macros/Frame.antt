-- ===== src/Kernel/Macros/Frame.antt =====
-- os_kernel/include/os_reentry.h, os_task/include/os_task.h, os_sem/include/os_sem.h and
-- os_event/include/os_event.h: what the macros write to the tasks.
use coco_os.Base.{arith, ◌%◌, sym, ℕ, ◌≢◌, ◌⊎◌, Bool, inl, inr, List, [], ◌∷◌, ◌++◌, true}
use mathlib.Core.Path.{subst}
use coco_os.Base.Tests.{◌==◌, if◌then◌else◌, Bool-cases}
use coco_os.Base.Outcome.{Result, ok, ◌>>=◌, Partly, Partly_bind, Partly_mono, Partly_any}
use mathlib.Core.Option.{Option}
use coco_os.Config.{Config, no_event}
use coco_os.Task.{
  Tcb, waiting_sem, os_task_kill, os_task_suspend, os_task_resume, os_task_wait_time_set,
  task_wait_sem_set,
}
use coco_os.Task.Fields.{os_task_internal_state_set}
use coco_os.Task.Frame.{
  Licence, IsFrame, Each, Each-trans, os_task_internal_state_set-Each, os_task_kill-Each,
  os_task_suspend-Each, os_task_resume-Each, os_task_wait_time_set-Each, task_wait_sem_set-Each,
  u32,
}
use coco_os.Task.Semaphores.{os_task_waiting_this_semaphore, os_task_release_waiting_task}
use coco_os.Task.Semaphores.Frame.{os_task_release_waiting_task-Each}
use coco_os.Sem.{os_sem_larger_than_zero, os_sem_decrement, os_sem_increment}
use coco_os.System.{Os, on_tasks, on_sems}
use coco_os.System.Frame.{Steps, Steps-refl, on_tasks-Steps, on_sems-Steps, IsQuiet}
use coco_os.System.Signals.{signal_from, os_wait_event, os_wait_multiple}
use coco_os.System.Signals.Frame.{signal_from-Steps, os_wait_event-Steps, os_wait_multiple-Steps}
use coco_os.Kernel.Macros.{
  os_free_tid, os_yield, os_end, os_wait_ticks, suspend_task, resume_task, os_wait_sem,
  signal_sem_no_schedule, os_signal_sem, wait_single_event, wait_multiple_events, signal_event,
}

-- The same, where another task may run in the end, or none.
abbrev pub Writes : (ℕ → Tcb → Tcb → Type 0) → Os → Os → Type 0
Writes R os os' = Each R os.tasks os'.tasks

pub stepped :
    (R : ℕ → Tcb → Tcb → Type 0) (os : Os) (r : Result Os)
    → Partly r (Steps R os)
    → Partly r (Writes R os)
stepped R os r h = Partly_mono r (Steps R os) (Writes R os) h (λ os' s. s.0)

module _ (cfg : Config) (l : Licence) (R : ℕ → Tcb → Tcb → Type 0) (frame : IsFrame l R)
    (line : ℕ) where
  -- A call behind steps of the kernel.
  pub Writes-bind :
      (os : Os) (r : Result Os) (f : Os → Result Os)
      → Partly r (Steps R os)
      → ((os' : Os) → Steps R os os' → Partly (f os') (Writes R os'))
      → Partly (r >>= f) (Writes R os)
  Writes-bind os r f h k = Partly_bind r f (Steps R os) (Writes R os) h (λ os' s.
      Partly_mono (f os') (Writes R os') (Writes R os) (k os' s)
        (λ os₂ w. Each-trans cfg l R frame os.tasks os'.tasks s.0 os₂.tasks w))

  pub os_yield-Writes :
      (os : Os) → l.May os.running_tid → Partly (os_yield cfg line os) (Writes R os)
  unfolding os_yield os_free_tid
  os_yield-Writes os may =
      Partly_bind (on_tasks (os_task_internal_state_set cfg os.running_tid (line % 65536)) os) _
        (Steps R os) (Writes R os)
        (on_tasks-Steps cfg l R frame (os_task_internal_state_set cfg os.running_tid (line % 65536))
          os
          (os_task_internal_state_set-Each cfg l R frame os.running_tid os.tasks (line % 65536) may
            (l.fits 65536 (line % 65536) (omega arith))))
        (λ os' s. s.0)

  then_yields :
      (os : Os) (r : Result Os)
      → l.May os.running_tid
      → Partly r (Steps R os)
      → Partly (r >>= os_yield cfg line) (Writes R os)
  then_yields os r may h =
      Writes-bind os r (os_yield cfg line) h
        (λ os' s. os_yield-Writes os' (subst l.May (sym s.1) may))

  pub os_end-Writes : (os : Os) → Partly (os_end cfg os) (Writes R os)
  unfolding os_end os_free_tid
  os_end-Writes os =
      Partly_bind (on_tasks (os_task_kill cfg os.running_tid) os) _ (Steps R os) (Writes R os)
        (on_tasks-Steps cfg l R frame (os_task_kill cfg os.running_tid) os
          (os_task_kill-Each cfg l R frame os.running_tid os.tasks))
        (λ os' s. s.0)

  pub signal_sem_no_schedule-Steps :
      (sem : ℕ) (os : Os) → Partly (signal_sem_no_schedule cfg sem os) (Steps R os)
  unfolding signal_sem_no_schedule
  signal_sem_no_schedule-Steps sem os =
      let waiting = os_task_waiting_this_semaphore cfg sem os.tasks in
      Partly_bind waiting _ _ (Steps R os) (Partly_any waiting) (λ b u. elim (Bool-cases b) [
        | inl t ↦ rw t (
            on_tasks-Steps cfg l R frame (os_task_release_waiting_task cfg sem) os
              (os_task_release_waiting_task-Each cfg l R frame os.tasks sem))
        | inr f ↦ rw f (on_sems-Steps cfg l R frame (os_sem_increment cfg sem) os)
      ])

  module _ (os : Os) (may : l.May os.running_tid) where
    pub os_wait_ticks-Writes :
        (ticks id : ℕ)
        → l.Fits u32 ticks
        → l.Fits 256 id
        → Partly (os_wait_ticks cfg line ticks id os) (Writes R os)
    unfolding os_wait_ticks
    os_wait_ticks-Writes ticks id h k =
        then_yields os (on_tasks (os_task_wait_time_set cfg os.running_tid id ticks) os) may (
          on_tasks-Steps cfg l R frame (os_task_wait_time_set cfg os.running_tid id ticks) os
            (os_task_wait_time_set-Each cfg l R frame os.running_tid os.tasks id ticks k h))

    maybe_yields :
        (id : ℕ) (r : Result Os)
        → Partly r (Steps R os)
        → Partly
            (r >>= λ os'. if id == os'.running_tid then os_yield cfg line os' else ok os')
            (Writes R os)
    maybe_yields id r h = Writes-bind os r _ h (λ os' s. elim (Bool-cases (id == os'.running_tid)) [
      | inl own ↦ rw own (os_yield-Writes os' (subst l.May (sym s.1) may))
      | inr other ↦ rw other (Steps-refl cfg l R frame os').0
    ])

    pub suspend_task-Writes :
        (id : ℕ)
        → (l.May id) ⊎ ((os.tasks.task_list id).state ≢ waiting_sem)
        → Partly (suspend_task cfg line id os) (Writes R os)
    unfolding suspend_task
    suspend_task-Writes id h = maybe_yields id (on_tasks (os_task_suspend cfg id) os) (
        on_tasks-Steps cfg l R frame (os_task_suspend cfg id) os
          (os_task_suspend-Each cfg l R frame id os.tasks h))

    pub resume_task-Writes : (id : ℕ) → Partly (resume_task cfg line id os) (Writes R os)
    unfolding resume_task
    resume_task-Writes id = maybe_yields id (on_tasks (os_task_resume cfg id) os) (
        on_tasks-Steps cfg l R frame (os_task_resume cfg id) os
          (os_task_resume-Each cfg l R frame id os.tasks))

    pub os_wait_sem-Writes :
        (sem : ℕ) → l.Fits 65536 sem → Partly (os_wait_sem cfg line sem os) (Writes R os)
    unfolding os_wait_sem
    os_wait_sem-Writes sem h =
        let larger = os_sem_larger_than_zero cfg sem os.sems in
        Partly_bind larger _ _ (Writes R os) (Partly_any larger) (λ free u. elim (Bool-cases free) [
          | inl t ↦ rw t (
              stepped R os (on_sems (os_sem_decrement cfg sem) os)
                (on_sems-Steps cfg l R frame (os_sem_decrement cfg sem) os))
          | inr f ↦ rw f (
              then_yields os (on_tasks (task_wait_sem_set cfg os.running_tid sem) os) may (
                on_tasks-Steps cfg l R frame (task_wait_sem_set cfg os.running_tid sem) os
                  (task_wait_sem_set-Each cfg l R frame os.running_tid os.tasks sem h)))
        ])

    pub os_signal_sem-Writes : (sem : ℕ) → Partly (os_signal_sem cfg line sem os) (Writes R os)
    unfolding os_signal_sem
    os_signal_sem-Writes sem =
        let waiting = os_task_waiting_this_semaphore cfg sem os.tasks in
        Partly_bind waiting _ _ (Writes R os) (Partly_any waiting) (λ b u. elim (Bool-cases b) [
          | inl t ↦ rw t (
              then_yields os (on_tasks (os_task_release_waiting_task cfg sem) os) may (
                on_tasks-Steps cfg l R frame (os_task_release_waiting_task cfg sem) os
                  (os_task_release_waiting_task-Each cfg l R frame os.tasks sem)))
          | inr f ↦ rw f (
              stepped R os (on_sems (os_sem_increment cfg sem) os)
                (on_sems-Steps cfg l R frame (os_sem_increment cfg sem) os))
        ])

    pub wait_single_event-Writes :
        (event timeout : ℕ) (call_back : Option (Os → Result Os))
        → l.Fits u32 timeout
        → IsQuiet cfg l R frame call_back
        → Partly (wait_single_event cfg line event timeout call_back os) (Writes R os)
    unfolding wait_single_event
    wait_single_event-Writes event timeout call_back h quiet =
        then_yields os (os_wait_event cfg os.running_tid event true timeout call_back os) may
          (os_wait_event-Steps cfg l R frame os.running_tid event true timeout call_back os h quiet)

    pub wait_multiple_events-Writes :
        (all : Bool) (args : List ℕ)
        → Partly (wait_multiple_events cfg line all args os) (Writes R os)
    unfolding wait_multiple_events
    wait_multiple_events-Writes all args =
        then_yields os (os_wait_multiple cfg all (args ++ no_event ∷ []) os) may
          (os_wait_multiple-Steps cfg l R frame all (args ++ no_event ∷ []) os)

    pub signal_event-Writes : (event : ℕ) → Partly (signal_event cfg line event os) (Writes R os)
    unfolding signal_event
    signal_event-Writes event =
        then_yields os (signal_from cfg os.running_tid event os) may
          (signal_from-Steps cfg l R frame os.running_tid event os)
