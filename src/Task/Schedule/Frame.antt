-- ===== src/Task/Schedule/Frame.antt =====
-- os_task/src/os_task.c: the choice of a task writes to none.
use coco_os.Base.{inr, inl, ℕ, zero, suc, ◌+◌, ◌%◌}
use coco_os.Base.Tests.{◌==◌, Bool-cases}
use coco_os.Base.Outcome.{Partly}
use coco_os.Config.{Config}
use coco_os.Task.{Tcb, Tasks, is, ready}
use coco_os.Task.Frame.{Licence, IsFrame, Each, Each-refl, read-Each}
use coco_os.Task.Schedule.{next_index, first_index, scan_ready, next_ready_task}

module _ (cfg : Config) (l : Licence) (R : ℕ → Tcb → Tcb → Type 0) (frame : IsFrame l R) where
  scan_ready-Each :
      (fuel index n_checked : ℕ) (ts : Tasks)
      → Partly (scan_ready cfg fuel index n_checked ts) (Each R ts)
  unfolding scan_ready
  scan_ready-Each zero index n_checked ts = tt
  scan_ready-Each (suc fuel) index n_checked ts =
      read-Each cfg l R frame index ts _ (elim (Bool-cases (is (ts.task_list index).state ready)) [
        | inl found ↦ rw found (Each-refl cfg l R frame ts)
        | inr not_ready ↦ rw not_ready (elim (Bool-cases ((n_checked + 1) % 256 == ts.n_tasks)) [
          | inl all ↦ rw all (Each-refl cfg l R frame ts)
          | inr more ↦
              rw more
                (scan_ready-Each fuel (next_index ts.n_tasks index) ((n_checked + 1) % 256) ts)
        ])
      ])

  pub next_ready_task-Each : (ts : Tasks) → Partly (next_ready_task cfg ts) (Each R ts)
  unfolding next_ready_task
  next_ready_task-Each ts = scan_ready-Each 256 (first_index ts) 0 ts
