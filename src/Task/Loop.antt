-- ===== src/Task/Loop.antt =====
-- The loops `for ( i = 0; i != nTasks; ++i )` of os_task/src/os_task.c whose rounds touch one task.
use coco_os.Base.{ℕ, ◌+◌, ◌<◌, ◌≡◌, refl, arith}
use coco_os.Base.Tests.{ltb, ◌==◌, if◌then◌else◌}
use coco_os.Base.Arrays.{for_range, for_range_inv}
use coco_os.Base.Outcome.{Result, Returns, Returns_forall, Returns_mono}
use coco_os.Task.{Tasks, Tcb}

-- The tasks below `i` have changed by `f`, and nothing else.
abbrev pub FirstTasks : Tasks → (Tcb → Tcb) → ℕ → Tasks → Type 0
FirstTasks ts f i ts' =
    (ts'.n_tasks ≡ ts.n_tasks)
    × (ts'.last_running_task ≡ ts.last_running_task)
    × ((j : ℕ) → ts'.task_list j ≡ (if ltb j i then f (ts.task_list j) else ts.task_list j))

abbrev pub EachTask : Tasks → (Tcb → Tcb) → Tasks → Type 0
EachTask ts f = FirstTasks ts f ts.n_tasks

-- One round, seen at the task `j`.
abbrev pub OneTask : Tasks → (Tcb → Tcb) → ℕ → ℕ → Tasks → Type 0
OneTask ts f i j ts' =
    (ts'.n_tasks ≡ ts.n_tasks)
    × (ts'.last_running_task ≡ ts.last_running_task)
    × (ts'.task_list j ≡ (if i == j then f (ts.task_list j) else ts.task_list j))

module _ (ts : Tasks) (f : Tcb → Tcb) (body : ℕ → Tasks → Result Tasks) where
  pub extend :
      (i : ℕ) (s s' : Tasks)
      → FirstTasks ts f i s
      → ((j : ℕ) → OneTask s f i j s')
      → FirstTasks ts f (i + 1) s'
  extend i s s' h one = (
    omega (arith, (one 0).0, h.0),
    omega (arith, (one 0).1, h.1),
    λ j. ground (arith, one j, h.2 j),
  )

  pub each_task :
      ((i j : ℕ) (s : Tasks)
        → i < ts.n_tasks
        → s.n_tasks ≡ ts.n_tasks
        → Returns (body i s) (OneTask s f i j))
      → Returns (for_range ts.n_tasks 0 body ts) (EachTask ts f)
  each_task keep =
      for_range_inv (FirstTasks ts f) body ts.n_tasks
        (λ i s hi h.
          Returns_mono (body i s) (λ s'. (j : ℕ) → OneTask s f i j s') _
            (Returns_forall (body i s) (OneTask s f i) (λ j. keep i j s hi h.0))
            (λ s' one. extend i s s' h one))
        ts.n_tasks 0 ts (omega arith) (refl, refl, λ j. ground arith)
