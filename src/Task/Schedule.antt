-- ===== src/Task/Schedule.antt =====
-- os_task/src/os_task.c: the choice of the next task to run.
pub mod Priority
pub mod RoundRobin
pub mod Frame
use coco_os.Base.{ℕ, zero, suc, ◌+◌, ◌%◌}
use coco_os.Base.Tests.{ltb, leb, ◌==◌, if◌then◌else◌}
use coco_os.Base.Arrays.{for_range}
use coco_os.Base.Outcome.{Result, ok, halt, spinning, ◌>>=◌}
use coco_os.Config.{Config, no_tid}
use coco_os.Task.{Tcb, Tasks, is, ready, task_at}

-- The local variables `highest_prio` and `highest_prio_task`.
pub record Best : Type 0 where
  pub prio : ℕ
  pub task : ℕ

-- The body of the loop for task `i`.
abbrev pub consider : ℕ → Tcb → Best → Best
consider i t b =
    if is t.state ready
    then (if ltb t.prio b.prio then record { prio = t.prio; task = i } else b)
    else b

-- `++index; if ( index == nTasks ) index = 0;`
abbrev next_index : ℕ → ℕ → ℕ
next_index n index = if index + 1 == n then 0 else index + 1

-- Where the scan starts.
abbrev pub first_index : Tasks → ℕ
first_index ts =
    if ts.last_running_task == no_tid
    then 0
    else if leb ts.n_tasks (ts.last_running_task + 1)
    then 0
    else ts.last_running_task + 1

module _ (cfg : Config) where
  unfoldable pub highest_prio_ready_task : Tasks → Result ℕ
  highest_prio_ready_task ts = do
    b ←
        for_range ts.n_tasks 0 (λ i b. do t ← task_at cfg i ts; ok (consider i t b))
          (record { prio = 255; task = no_tid })
    ok b.task

  -- The do-while loop of `next_ready_task`; `n_checked` is a byte, so 256 rounds always suffice.
  pub scan_ready : ℕ → ℕ → ℕ → Tasks → Result Tasks
  scan_ready zero index n_checked ts = halt spinning
  scan_ready (suc fuel) index n_checked ts =
      let rest = scan_ready fuel (next_index ts.n_tasks index) ((n_checked + 1) % 256) ts in
      task_at cfg index ts >>= λ t.
      if is t.state ready
      then ok (record ts { last_running_task = index })
      else if (n_checked + 1) % 256 == ts.n_tasks
      then ok (record ts { last_running_task = no_tid })
      else rest

  -- The task id that the C function returns is the new `last_running_task`.
  pub next_ready_task : Tasks → Result Tasks
  next_ready_task ts = scan_ready 256 (first_index ts) 0 ts

pub task_set_no_running_task : Tasks → Tasks
task_set_no_running_task ts = record ts { last_running_task = no_tid }
