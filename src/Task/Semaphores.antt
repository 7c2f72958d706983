-- ===== src/Task/Semaphores.antt =====
-- os_task/src/os_task.c: the tasks that wait for a semaphore.
pub mod Waiting
pub mod Release
pub mod Frame
use coco_os.Base.{ℕ, zero, suc, ◌+◌, Bool, true, false, ◌&&◌, not}
use coco_os.Base.Tests.{ltb, ◌==◌, if◌then◌else◌}
use coco_os.Base.Arrays.{for_range}
use coco_os.Base.Outcome.{Result, ok, ◌>>=◌}
use coco_os.Config.{Config, no_tid}
use coco_os.Task.{Tcb, Tasks, is, waiting_sem, ready, task_at, modify}

abbrev pub waits_for : ℕ → Tcb → Bool
waits_for sem t = is t.state waiting_sem && t.semaphore == sem

-- The local variables of the two builds of `os_task_release_waiting_task`.
pub record Longest : Type 0 where
  pub wait_time : ℕ
  pub last_checked : ℕ
  pub found : ℕ

pub record Highest : Type 0 where
  pub prio : ℕ
  pub found : ℕ

abbrev pub consider_longest : ℕ → ℕ → Tcb → Longest → Longest
consider_longest sem tid t b =
    if waits_for sem t
    then (if ltb b.wait_time t.time
        then record { wait_time = t.time; last_checked = tid; found = tid }
        else record b { last_checked = tid })
    else b

abbrev pub consider_highest : ℕ → ℕ → Tcb → Highest → Highest
consider_highest sem tid t b =
    if waits_for sem t
    then (if ltb t.prio b.prio then record { prio = t.prio; found = tid } else b)
    else b

-- After the loop of the round-robin build: all waiting times 0 releases the last one.
abbrev pub found_longest : Longest → ℕ
found_longest b =
    if b.wait_time == 0 && not (b.last_checked == no_tid) then b.last_checked else b.found

module _ (cfg : Config) where
  pub longest_waiting : ℕ → Tasks → Result ℕ
  longest_waiting sem ts = do
    b ←
        for_range ts.n_tasks 0 (λ i b. do t ← task_at cfg i ts; ok (consider_longest sem i t b))
          (record { wait_time = 0; last_checked = no_tid; found = no_tid })
    ok (found_longest b)

  pub highest_waiting : ℕ → Tasks → Result ℕ
  highest_waiting sem ts = do
    b ←
        for_range ts.n_tasks 0 (λ i b. do t ← task_at cfg i ts; ok (consider_highest sem i t b))
          (record { prio = 255; found = no_tid })
    ok b.found

  -- What is done with the task that was found.
  pub release_found : ℕ → Tasks → Result Tasks
  unfolding modify
  release_found found ts =
      if not (found == no_tid) then modify cfg found (λ t. record t { state = ready }) ts else ok ts

  pub os_task_release_waiting_task : ℕ → Tasks → Result Tasks
  os_task_release_waiting_task sem ts = do
    found ← if cfg.round_robin then longest_waiting sem ts else highest_waiting sem ts
    release_found found ts

  -- The loop of `os_task_waiting_this_semaphore`, which stops at the first such task.
  pub waiting_from : ℕ → ℕ → ℕ → Tasks → Result Bool
  waiting_from sem zero i ts = ok false
  waiting_from sem (suc n) i ts =
      let rest = waiting_from sem n (i + 1) ts in
      task_at cfg i ts >>= λ t. if waits_for sem t then ok true else rest

  pub os_task_waiting_this_semaphore : ℕ → Tasks → Result Bool
  os_task_waiting_this_semaphore sem ts = waiting_from sem ts.n_tasks 0 ts
