-- ===== src/Task/Semaphores/Frame.antt =====
-- os_task/src/os_task.c: `os_task_release_waiting_task` writes to a task only its state.
use coco_os.Base.{inr, inl, ℕ}
use coco_os.Base.Tests.{◌==◌, if◌then◌else◌, Bool-cases}
use coco_os.Base.Outcome.{Partly, Partly_bind, Partly_any}
use coco_os.Config.{Config, no_tid}
use coco_os.Task.{Tcb, Tasks, ready}
use coco_os.Task.Frame.{Licence, IsFrame, Each, Each-refl, modify-Each}
use coco_os.Task.Semaphores.{
  longest_waiting, highest_waiting, release_found, os_task_release_waiting_task,
}

module _ (cfg : Config) (l : Licence) (R : ℕ → Tcb → Tcb → Type 0) (frame : IsFrame l R)
    (ts : Tasks) where
  release_found-Each : (found : ℕ) → Partly (release_found cfg found ts) (Each R ts)
  unfolding release_found
  release_found-Each found = elim (Bool-cases (found == no_tid)) [
    | inl none_found ↦ rw none_found (Each-refl cfg l R frame ts)
    | inr some ↦ rw some (
        modify-Each cfg l R frame found (λ t. record t { state = ready }) ts
          (frame.state found (ts.task_list found) ready))
  ]

  pub os_task_release_waiting_task-Each :
      (sem : ℕ) → Partly (os_task_release_waiting_task cfg sem ts) (Each R ts)
  unfolding os_task_release_waiting_task
  os_task_release_waiting_task-Each sem =
      let found =
        if cfg.round_robin then longest_waiting cfg sem ts else highest_waiting cfg sem ts in
      Partly_bind found (λ tid. release_found cfg tid ts) _ (Each R ts) (Partly_any found)
        (λ tid u. release_found-Each tid)
