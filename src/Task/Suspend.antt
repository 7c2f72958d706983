-- ===== src/Task/Suspend.antt =====
-- os_task/src/os_task.c: `os_task_suspend` and `os_task_resume` together.
use coco_os.Base.{ℕ, ◌≤◌, ◌<◌, arith}
use coco_os.Base.Tests.{if◌then◌else◌}
use coco_os.Base.Outcome.{Returns, ◌>>=◌}
use coco_os.Config.{Config}
use coco_os.Task.{
  Tcb, Tasks, is, killed, suspended, waiting_sem, ready, os_task_suspend, os_task_resume, task_at,
  modify, task_suspended_set,
}
use coco_os.Task.Loop.{OneTask}

-- A task that was suspended and resumed.
abbrev pub resumed : Tcb → Tcb
resumed t =
    if is t.state killed
    then t
    else if is t.state suspended
    then record t { state = t.saved_state }
    else if is t.state waiting_sem
    then record t { state = ready; saved_state = ready; internal_state = 0 }
    else record t { saved_state = t.state }

module _ (cfg : Config) where
  -- Of a task of the table, suspending it and resuming it returns and leaves each other task as it
  -- is. The task itself is as it was, but that it remembers its state; one that waited for a
  -- semaphore is ready instead, to start again from its first line; one that was suspended goes on
  -- in the state it had; and a killed one stays killed.
  pub os_task_resume-os_task_suspend :
      (tid : ℕ) (ts : Tasks)
      → tid < ts.n_tasks
      → ts.n_tasks ≤ cfg.max_tasks
      → (j : ℕ)
      → Returns (os_task_suspend cfg tid ts >>= os_task_resume cfg tid) (OneTask ts resumed tid j)
  unfolding os_task_suspend os_task_resume task_at modify task_suspended_set
  os_task_resume-os_task_suspend tid ts h le j = ground arith
