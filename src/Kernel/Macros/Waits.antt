-- ===== src/Kernel/Macros/Waits.antt =====
-- os_sem/include/os_sem.h: the macros that wait for a semaphore and signal it. No task waits for a
-- semaphore that is free.
use coco_os.Base.{◌%◌, ap, ℕ, ◌≤◌, ◌<◌, ◌≡◌, false, ◌⊎◌, inl, inr, refl, arith}
use coco_os.Base.Tests.{ltb, lt→ltb, Bool-cases}
use coco_os.Sem.InRange.{larger_in_range, decrement_in_range, increment_in_range}
use coco_os.Task.Semaphores.Release.{Longer, Urgent}
use coco_os.Base.Arrays.{update}
use coco_os.Base.Outcome.{Result, ok, Returns, Returns_bind, Returns_mono, Returns_forall}
use coco_os.Config.{no_tid, Config, total_semaphores}
use coco_os.Task.{waiting_sem, modify, Tcb, Tasks, ready, task_wait_sem_set}
use coco_os.Task.Fields.{os_task_internal_state_set}
use coco_os.Task.Semaphores.{
  waits_for, os_task_waiting_this_semaphore, os_task_release_waiting_task,
}
use coco_os.Task.Semaphores.Waiting.{NoneWaits, IsWaitedFor, os_task_waiting_this_semaphore_lem}
use coco_os.Task.Semaphores.Release.{
  Release, os_task_release_waiting_task-Urgent, os_task_release_waiting_task-Longer,
}
use coco_os.Sem.{os_sem_increment}
use coco_os.System.{Os, on_tasks, on_sems}
use coco_os.Kernel.Macros.{
  os_free_tid, os_yield, os_wait_sem, os_signal_sem, signal_sem_no_schedule,
}

-- No task of the table waits for a semaphore that is free.
abbrev pub LiveAt : Os → ℕ → ℕ → Type 0
LiveAt os k j =
    0 < (os.sems.sem_list k).value
    → j < os.tasks.n_tasks
    → waits_for k (os.tasks.task_list j) ≡ false

abbrev pub IsLive : Os → Type 0
IsLive os = (k j : ℕ) → LiveAt os k j

-- A task of the table that gives up the processor at a line.
pub yield_in_table :
    (cfg : Config) (line : ℕ) (os : Os)
    → os.running_tid < cfg.max_tasks
    → os_yield cfg line os
      ≡ ok (record os {
        running_tid = no_tid;
        tasks = record (os.tasks) {
          task_list =
              update os.tasks.task_list os.running_tid
                (record (os.tasks.task_list os.running_tid) { internal_state = line % 65536 });
        };
      })
unfolding os_yield os_free_tid os_task_internal_state_set modify
yield_in_table cfg line os h = rw (lt→ltb _ _ h) refl

abbrev waits : ℕ → Tcb → Tcb
waits sem t = record t { time = 0; state = waiting_sem; semaphore = sem }

wait_in_table :
    (cfg : Config) (tid sem : ℕ) (ts : Tasks)
    → tid < ts.n_tasks
    → tid < cfg.max_tasks
    → task_wait_sem_set cfg tid sem ts
      ≡ ok (record ts { task_list = update ts.task_list tid (waits sem (ts.task_list tid)) })
unfolding task_wait_sem_set modify
wait_in_table cfg tid sem ts h l = rw (lt→ltb _ _ h, lt→ltb _ _ l) refl

module _ (cfg : Config) (sem : ℕ) (os : Os) (fits : sem < total_semaphores cfg)
    (le : os.tasks.n_tasks ≤ cfg.max_tasks) (small : cfg.max_tasks < 255) where
  abbrev Same : Os → Type 0
  Same os' = os'.tasks.n_tasks ≡ os.tasks.n_tasks

  wait_at :
      (line k j : ℕ)
      → os.running_tid < os.tasks.n_tasks
      → LiveAt os k j
      → Returns (os_wait_sem cfg line sem os) (λ os'. Same os' × LiveAt os' k j)
  unfolding os_wait_sem
  wait_at line k j h live =
      rw (larger_in_range cfg sem os.sems fits)
        (elim (Bool-cases (ltb 0 (os.sems.sem_list sem).value)) [
          | inl t ↦ rw (t, decrement_in_range cfg sem os.sems fits) (ground arith)
          | inr f ↦
              rw
                (
                  f,
                  wait_in_table cfg os.running_tid sem os.tasks h (omega arith),
                  yield_in_table cfg line
                      (record os {
                        tasks = record (os.tasks) {
                          task_list =
                              update os.tasks.task_list os.running_tid
                                (waits sem (os.tasks.task_list os.running_tid));
                        };
                      })
                      (omega arith),
                )
                (ground (arith, f))
        ])

  -- Some tasks have become ready, and no other has changed.
  abbrev Readier : Tasks → Type 0
  Readier ts' =
      (ts'.n_tasks ≡ os.tasks.n_tasks)
      × ((j : ℕ) → (ts'.task_list j ≡ os.tasks.task_list j) ⊎ ((ts'.task_list j).state ≡ ready))

  readier :
      (None : Type 0) (Before : Tcb → Tcb → Type 0) (ts' : Tasks)
      → Release cfg sem os.tasks le small None Before ts'
      → Readier ts'
  readier None Before ts' (inl (e, none)) =
      (ap (λ ts. ts.n_tasks) e, λ j. inl (ap (λ ts. ts.task_list j) e))
  readier None Before ts' (inr (tid, best, r)) =
      (ap (λ ts. ts.n_tasks) r, λ j. ground (arith, ap (λ ts. ts.task_list j) r))

  release_Readier : Returns (os_task_release_waiting_task cfg sem os.tasks) Readier
  release_Readier = elim (Bool-cases cfg.round_robin) [
    | inl rr ↦
        Returns_mono (os_task_release_waiting_task cfg sem os.tasks) _ _
          (os_task_release_waiting_task-Longer cfg sem os.tasks le small rr) (readier _ Longer)
    | inr prio ↦
        Returns_mono (os_task_release_waiting_task cfg sem os.tasks) _ _
          (os_task_release_waiting_task-Urgent cfg sem os.tasks le small prio) (readier _ Urgent)
  ]

  -- What is done when a task waits, and when none does.
  abbrev counted : Result Os
  counted = on_sems (os_sem_increment cfg sem) os

  counted-LiveAt :
      (k j : ℕ)
      → NoneWaits sem os.tasks 0 os.tasks.n_tasks
      → LiveAt os k j
      → Returns counted (λ os'. Same os' × (os'.running_tid ≡ os.running_tid) × LiveAt os' k j)
  counted-LiveAt k j none live =
      rw (increment_in_range cfg sem os.sems fits) (ground (arith, none j))

  released-IsLive :
      IsLive os
      → Returns
          (on_tasks (os_task_release_waiting_task cfg sem) os)
          (λ os'. Same os' × (os'.running_tid ≡ os.running_tid) × IsLive os')
  released-IsLive live =
      Returns_bind (os_task_release_waiting_task cfg sem os.tasks)
        (λ ts. ok (record os { tasks = ts })) Readier _ release_Readier
        (λ ts r. (
          r.0,
          refl,
          λ k j v hj. elim (r.1 j) [
            | inl e ↦ rw e (live k j v (omega (arith, r.0)))
            | inr e ↦ ground (arith, e)
          ],
        ))

  pub wait-IsLive :
      (line : ℕ)
      → os.running_tid < os.tasks.n_tasks
      → IsLive os
      → Returns (os_wait_sem cfg line sem os) (λ os'. Same os' × IsLive os')
  wait-IsLive line h live =
      Returns_mono (os_wait_sem cfg line sem os) (λ os'. (k j : ℕ) → Same os' × LiveAt os' k j) _
        (Returns_forall _ (λ k os'. (j : ℕ) → Same os' × LiveAt os' k j)
          λ k.
            Returns_forall _ (λ j os'. Same os' × LiveAt os' k j)
              λ j. wait_at line k j h (live k j))
        (λ os' all. ((all 0 0).0, λ k j. (all k j).1))

  counted-IsLive :
      NoneWaits sem os.tasks 0 os.tasks.n_tasks
      → IsLive os
      → Returns counted (λ os'. Same os' × (os'.running_tid ≡ os.running_tid) × IsLive os')
  counted-IsLive none live =
      Returns_mono counted
        (λ os'. (k j : ℕ) → Same os' × (os'.running_tid ≡ os.running_tid) × LiveAt os' k j) _
        (Returns_forall _
          (λ k os'. (j : ℕ) → Same os' × (os'.running_tid ≡ os.running_tid) × LiveAt os' k j)
          λ k.
            Returns_forall _
              (λ j os'. Same os' × (os'.running_tid ≡ os.running_tid) × LiveAt os' k j)
              λ j. counted-LiveAt k j none (live k j))
        (λ os' all. ((all 0 0).0, (all 0 0).1, λ k j. (all k j).2))

  still :
      (r : Result Os)
      → Returns r (λ os'. Same os' × (os'.running_tid ≡ os.running_tid) × IsLive os')
      → Returns r (λ os'. Same os' × IsLive os')
  still r h = Returns_mono r _ _ h (λ os' k. (k.0, k.2))

  pub signal_isr-IsLive :
      IsLive os → Returns (signal_sem_no_schedule cfg sem os) (λ os'. Same os' × IsLive os')
  unfolding signal_sem_no_schedule
  signal_isr-IsLive live =
      Returns_bind (os_task_waiting_this_semaphore cfg sem os.tasks) _
        (IsWaitedFor sem os.tasks 0 os.tasks.n_tasks) _
        (os_task_waiting_this_semaphore_lem cfg sem os.tasks le)
        (λ b h. elim h [
          | inl (t, some) ↦ rw t (still _ (released-IsLive live))
          | inr (f, none) ↦ rw f (still _ (counted-IsLive none live))
        ])

  pub signal-IsLive :
      (line : ℕ)
      → os.running_tid < os.tasks.n_tasks
      → IsLive os
      → Returns (os_signal_sem cfg line sem os) (λ os'. Same os' × IsLive os')
  unfolding os_signal_sem
  signal-IsLive line running live =
      Returns_bind (os_task_waiting_this_semaphore cfg sem os.tasks) _
        (IsWaitedFor sem os.tasks 0 os.tasks.n_tasks) _
        (os_task_waiting_this_semaphore_lem cfg sem os.tasks le)
        (λ b h. elim h [
          | inl (t, some) ↦ rw t (
              Returns_bind _ (os_yield cfg line) _ _ (released-IsLive live) (λ os' r.
                rw (yield_in_table cfg line os' (omega (arith, r.1)))
                  (r.0, λ k j v hj. ground (arith, r.2 k j v hj))))
          | inr (f, none) ↦ rw f (still _ (counted-IsLive none live))
        ])
