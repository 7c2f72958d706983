-- ===== src/Kernel/Macros/Safety.antt =====
-- os_kernel/include/os_reentry.h, os_task/include/os_task.h, os_sem/include/os_sem.h and
-- os_event/include/os_event.h: the macros keep the state of the kernel well-formed.
use coco_os.Base.{
  ◌%◌, ◌∙◌, ℕ, ◌≤◌, ◌<◌, ◌≡◌, ◌⊎◌, refl, Bool, true, arith, inl, inr, List, [], ◌∷◌, ◌++◌,
}
use mathlib.Core.Path.{subst}
use coco_os.Base.Tests.{lt→ltb, ltb, ◌==◌, if◌then◌else◌, Bool-cases}
use coco_os.Base.Lists.{All}
use coco_os.Base.Outcome.{
  Result, ok, ◌>>=◌, Returns_mono, Safe, Safe_bind, Safe_mono, Safe_of_Returns,
}
use mathlib.Core.Option.{Option}
use coco_os.Config.{Config, total_events, total_semaphores, no_tid, no_event}
use coco_os.Task.{
  modify, Tasks, Tcb, os_task_kill, os_task_suspend, os_task_resume, os_task_wait_time_set,
  task_wait_sem_set,
}
use coco_os.Task.Fields.{os_task_internal_state_set}
use coco_os.Task.Shape.{
  SameShape, os_task_kill-SameShape, task_wait_sem_set-SameShape, os_task_suspend-SameShape,
  os_task_resume-SameShape, os_task_wait_time_set-SameShape,
}
use coco_os.Task.Semaphores.{os_task_waiting_this_semaphore, os_task_release_waiting_task}
use coco_os.Task.Semaphores.Waiting.{os_task_waiting_this_semaphore_lem}
use coco_os.Task.Semaphores.Release.{
  Release, Longer, Urgent, os_task_release_waiting_task-Longer, os_task_release_waiting_task-Urgent,
}
use coco_os.Sem.{os_sem_decrement, os_sem_increment}
use coco_os.Sem.InRange.{larger_in_range, decrement_in_range, increment_in_range}
use coco_os.System.{Os, on_tasks, on_sems}
use coco_os.System.Invariant.{IsSound, IsWell, Keeps, Keeps-refl, on_tasks-Keeps, on_sems-Keeps}
use coco_os.System.Signals.{signal_from, os_wait_event, os_wait_multiple}
use coco_os.System.Signals.Safety.{
  IsCalm, InRange, signal_from-Keeps, os_wait_event-Keeps, os_wait_multiple-Keeps,
}
use coco_os.Kernel.Macros.{
  os_free_tid, os_yield, os_end, os_wait_ticks, suspend_task, resume_task, os_wait_sem,
  signal_sem_no_schedule, os_signal_sem, wait_single_event, wait_multiple_events, signal_event,
}

module _ (cfg : Config) (sound : IsSound cfg) (line : ℕ) where
  -- Nothing was created; and the task has yielded and goes on at the line when it is scheduled
  -- again, or it still runs.
  abbrev pub Frees : Os → Os → Type 0
  Frees os os' =
      IsWell cfg os'
      × (os'.tasks.n_tasks ≡ os.tasks.n_tasks)
      × (((os'.running_tid ≡ no_tid)
            × ((os'.tasks.task_list os.running_tid).internal_state ≡ line % 65536))
          ⊎ (os'.running_tid ≡ os.running_tid))

  pub Frees-of_Keeps : (os os' : Os) → Keeps cfg os os' → Frees os os'
  Frees-of_Keeps os os' k = (k.0, k.1.1, inr k.1.0)

  pub Frees-after : (os os' : Os) → Keeps cfg os os' → (os₂ : Os) → Frees os' os₂ → Frees os os₂
  Frees-after os os' s os₂ s₂ = (
    s₂.0,
    s₂.1 ∙ s.1.1,
    elim (s₂.2) [
      | inl (e, l) ↦
          inl (e, subst (λ i. (os₂.tasks.task_list i).internal_state ≡ line % 65536) (s.1.0) l)
      | inr e ↦ inr (e ∙ s.1.0)
    ],
  )

  -- A call after which the task yields.
  pub Frees-bind :
      (os : Os) (r : Result Os) (f : Os → Result Os)
      → Safe r (Keeps cfg os)
      → ((os' : Os) → Keeps cfg os os' → Safe (f os') (Frees os'))
      → Safe (r >>= f) (Frees os)
  Frees-bind os r f h k =
      Safe_bind r f (Keeps cfg os) (Frees os) h
        (λ os' s. Safe_mono (f os') (Frees os') (Frees os) (k os' s) (Frees-after os os' s))

  freed : (os os' : Os) → Keeps cfg os os' → IsWell cfg (os_free_tid os')
  unfolding os_free_tid
  freed os os' k = record {
    tasks_fit = k.0.tasks_fit;
    current = inl refl;
    own_queue = k.0.own_queue;
    events_fit = k.0.events_fit;
    queues_fit = k.0.queues_fit;
    valid = k.0.valid;
    known = k.0.known;
    distinct = k.0.distinct;
  }

  module _ (os : Os) (w : IsWell cfg os) (runs : os.running_tid < os.tasks.n_tasks) where
    pub os_yield-Frees : Safe (os_yield cfg line os) (Frees os)
    unfolding os_yield os_free_tid os_task_internal_state_set modify
    os_yield-Frees = rw (lt→ltb os.running_tid cfg.max_tasks (omega (arith, w.tasks_fit))) (
      record {
        tasks_fit = w.tasks_fit;
        current = inl refl;
        own_queue = λ i hi. ground (arith, w.own_queue i hi);
        events_fit = w.events_fit;
        queues_fit = w.queues_fit;
        valid = w.valid;
        known = w.known;
        distinct = λ i j lt hj. ground (arith, w.distinct i j lt hj);
      },
      refl,
      inl (refl, ground arith),
    )

    -- The task has ended: no task runs.
    pub os_end-IsWell : Safe (os_end cfg os) (IsWell cfg)
    unfolding os_end
    os_end-IsWell =
        Safe_bind (on_tasks (os_task_kill cfg os.running_tid) os) _ (Keeps cfg os) (IsWell cfg)
          (on_tasks-Keeps cfg (os_task_kill cfg os.running_tid) os w
            (os_task_kill-SameShape cfg os.running_tid os.tasks w.tasks_fit))
          (freed os)

  -- What is done before a yield keeps the state, and then the task yields.
  then_yields :
      (os : Os) (r : Result Os)
      → os.running_tid < os.tasks.n_tasks
      → Safe r (Keeps cfg os)
      → Safe (r >>= os_yield cfg line) (Frees os)
  then_yields os r runs h =
      Frees-bind os r (os_yield cfg line) h
        (λ os' k. os_yield-Frees os' k.0 (omega (arith, k.1.0, k.1.1)))

  released-SameShape :
      (sem : ℕ) (ts : Tasks) (le : ts.n_tasks ≤ cfg.max_tasks) (None : Type 0)
      (Before : Tcb → Tcb → Type 0) (ts' : Tasks)
      → Release cfg sem ts le sound.static.tasks None Before ts'
      → SameShape ts ts'
  released-SameShape sem ts le None Before ts' (inl (e, none_waits)) =
      rw e (refl, λ j. refl, λ j. refl)
  released-SameShape sem ts le None Before ts' (inr (tid, best, r)) =
      rw r (refl, λ j. ground arith, λ j. ground arith)

  release-SameShape :
      (sem : ℕ) (ts : Tasks)
      → ts.n_tasks ≤ cfg.max_tasks
      → Safe (os_task_release_waiting_task cfg sem ts) (SameShape ts)
  release-SameShape sem ts le =
      Safe_of_Returns (os_task_release_waiting_task cfg sem ts) (SameShape ts)
        (elim (Bool-cases cfg.round_robin) [
          | inl rr ↦
              Returns_mono (os_task_release_waiting_task cfg sem ts) _ _
                (os_task_release_waiting_task-Longer cfg sem ts le sound.static.tasks rr)
                (released-SameShape sem ts le _ Longer)
          | inr prio ↦
              Returns_mono (os_task_release_waiting_task cfg sem ts) _ _
                (os_task_release_waiting_task-Urgent cfg sem ts le sound.static.tasks prio)
                (released-SameShape sem ts le _ Urgent)
        ])

  module _ (sem : ℕ) (os : Os) (w : IsWell cfg os) (fits : sem < total_semaphores cfg) where
    increment-Keeps : Safe (on_sems (os_sem_increment cfg sem) os) (Keeps cfg os)
    increment-Keeps =
        on_sems-Keeps cfg (os_sem_increment cfg sem) os w
          (rw (increment_in_range cfg sem os.sems fits) tt)

    release-Keeps : Safe (on_tasks (os_task_release_waiting_task cfg sem) os) (Keeps cfg os)
    release-Keeps =
        on_tasks-Keeps cfg (os_task_release_waiting_task cfg sem) os w
          (release-SameShape sem os.tasks w.tasks_fit)

    waiting-Safe : Safe (os_task_waiting_this_semaphore cfg sem os.tasks) (λ b. Unit {0})
    waiting-Safe = Safe_of_Returns (os_task_waiting_this_semaphore cfg sem os.tasks) _ (
        Returns_mono (os_task_waiting_this_semaphore cfg sem os.tasks) _ _
          (os_task_waiting_this_semaphore_lem cfg sem os.tasks w.tasks_fit) (λ b h. tt))

    pub os_wait_sem-Frees :
        os.running_tid < os.tasks.n_tasks → Safe (os_wait_sem cfg line sem os) (Frees os)
    unfolding os_wait_sem
    os_wait_sem-Frees runs = elim (Bool-cases (ltb 0 (os.sems.sem_list sem).value)) [
      | inl free ↦
          rw (larger_in_range cfg sem os.sems fits, free)
            (Safe_mono (on_sems (os_sem_decrement cfg sem) os) (Keeps cfg os) (Frees os)
              (on_sems-Keeps cfg (os_sem_decrement cfg sem) os w
                (rw (decrement_in_range cfg sem os.sems fits) tt))
              (Frees-of_Keeps os))
      | inr taken ↦
          rw (larger_in_range cfg sem os.sems fits, taken)
            (then_yields os (on_tasks (task_wait_sem_set cfg os.running_tid sem) os) runs (
              on_tasks-Keeps cfg (task_wait_sem_set cfg os.running_tid sem) os w
                (task_wait_sem_set-SameShape cfg os.running_tid os.tasks w.tasks_fit sem)))
    ]

    pub signal_sem_no_schedule-Keeps : Safe (signal_sem_no_schedule cfg sem os) (Keeps cfg os)
    unfolding signal_sem_no_schedule
    signal_sem_no_schedule-Keeps =
        Safe_bind (os_task_waiting_this_semaphore cfg sem os.tasks) _ (λ b. Unit {0}) (Keeps cfg os)
          waiting-Safe
          (λ b u. elim (Bool-cases b) [ inl t ↦ rw t release-Keeps | inr f ↦ rw f increment-Keeps ])

    pub os_signal_sem-Frees :
        os.running_tid < os.tasks.n_tasks → Safe (os_signal_sem cfg line sem os) (Frees os)
    unfolding os_signal_sem
    os_signal_sem-Frees runs =
        Safe_bind (os_task_waiting_this_semaphore cfg sem os.tasks) _ (λ b. Unit {0}) (Frees os)
          waiting-Safe
          (λ b u. elim (Bool-cases b) [
            | inl t ↦ rw t (
                then_yields os (on_tasks (os_task_release_waiting_task cfg sem) os) runs
                  release-Keeps)
            | inr f ↦ rw f (
                Safe_mono (on_sems (os_sem_increment cfg sem) os) (Keeps cfg os) (Frees os)
                  increment-Keeps (Frees-of_Keeps os))
          ])

  module _ (os : Os) (w : IsWell cfg os) (runs : os.running_tid < os.tasks.n_tasks) where
    pub os_wait_ticks-Frees : (ticks id : ℕ) → Safe (os_wait_ticks cfg line ticks id os) (Frees os)
    unfolding os_wait_ticks
    os_wait_ticks-Frees ticks id =
        then_yields os (on_tasks (os_task_wait_time_set cfg os.running_tid id ticks) os) runs (
          on_tasks-Keeps cfg (os_task_wait_time_set cfg os.running_tid id ticks) os w
            (os_task_wait_time_set-SameShape cfg os.running_tid os.tasks w.tasks_fit id ticks))

    -- The task may be the one that runs.
    maybe_yields :
        (id : ℕ) (r : Result Os)
        → Safe r (Keeps cfg os)
        → Safe
            (r >>= λ os'. if id == os'.running_tid then os_yield cfg line os' else ok os')
            (Frees os)
    maybe_yields id r h = Frees-bind os r _ h (λ os' k. elim (Bool-cases (id == os'.running_tid)) [
      | inl own ↦ rw own (os_yield-Frees os' k.0 (omega (arith, k.1.0, k.1.1)))
      | inr other ↦ rw other (Frees-of_Keeps os' os' (Keeps-refl cfg os' k.0))
    ])

    pub suspend_task-Frees : (id : ℕ) → Safe (suspend_task cfg line id os) (Frees os)
    unfolding suspend_task
    suspend_task-Frees id = maybe_yields id (on_tasks (os_task_suspend cfg id) os) (
        on_tasks-Keeps cfg (os_task_suspend cfg id) os w
          (os_task_suspend-SameShape cfg id os.tasks w.tasks_fit))

    pub resume_task-Frees : (id : ℕ) → Safe (resume_task cfg line id os) (Frees os)
    unfolding resume_task
    resume_task-Frees id = maybe_yields id (on_tasks (os_task_resume cfg id) os) (
        on_tasks-Keeps cfg (os_task_resume cfg id) os w
          (os_task_resume-SameShape cfg id os.tasks w.tasks_fit))

    pub wait_single_event-Frees :
        (event timeout : ℕ) (call_back : Option (Os → Result Os))
        → IsCalm cfg sound call_back
        → Safe (wait_single_event cfg line event timeout call_back os) (Frees os)
    unfolding wait_single_event
    wait_single_event-Frees event timeout call_back calm =
        then_yields os (os_wait_event cfg os.running_tid event true timeout call_back os) runs
          (os_wait_event-Keeps cfg sound os.running_tid event true timeout call_back os w calm)

    pub wait_multiple_events-Frees :
        (all : Bool) (e : ℕ) (es : List ℕ)
        → e < total_events cfg
        → All (InRange cfg sound) es
        → Safe (wait_multiple_events cfg line all (e ∷ es) os) (Frees os)
    unfolding wait_multiple_events
    wait_multiple_events-Frees all e es h hs =
        then_yields os (os_wait_multiple cfg all (e ∷ es ++ no_event ∷ []) os) runs
          (os_wait_multiple-Keeps cfg sound all e es os w h hs (omega (arith, w.tasks_fit)))

    pub signal_event-Frees :
        (event : ℕ) → event < total_events cfg → Safe (signal_event cfg line event os) (Frees os)
    unfolding signal_event
    signal_event-Frees event h =
        then_yields os (signal_from cfg os.running_tid event os) runs
          (signal_from-Keeps cfg sound os.running_tid event os w h)
