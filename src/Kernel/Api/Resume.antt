-- ===== src/Kernel/Api/Resume.antt =====
-- os_kernel/include/os_reentry.h: a task that gave up the processor, while others run.
use coco_os.Base.{◌≤◌, ℕ, ◌<◌, ◌≡◌, ◌≢◌, ◌⊎◌}
use coco_os.Base.Outcome.{Result, ok, Partly}
use mathlib.Core.Option.{Option, none, some}
use coco_os.Config.{Config}
use coco_os.Task.{Tcb, waiting_sem}
use coco_os.Task.Frame.{Licence}
use coco_os.System.{Os}
use coco_os.Kernel.Calls.{
  TaskCall, suspend, wait_event, receive, receive_again, Call, in_task, close, call,
}

-- What a task left in its control block is still there: where it goes on, the queue it waits for
-- and how its last post or receive ended; and who it is.
pub record IsKept (t t' : Tcb) : Type 0 where
  pub internal_state : t'.internal_state ≡ t.internal_state
  pub wait_q : t'.wait_q ≡ t.wait_q
  pub msg_change_event : t'.msg_change_event ≡ t.msg_change_event
  pub msg_result : t'.msg_result ≡ t.msg_result
  pub taskproc : t'.taskproc ≡ t.taskproc
  pub data_ptr : t'.data_ptr ≡ t.data_ptr
  pub tid : t'.tid ≡ t.tid
  pub prio : t'.prio ≡ t.prio
  pub msg_q : t'.msg_q ≡ t.msg_q

module _ (me : ℕ) where
  -- Of the task `me` the frame holds what it left; of the others, nothing.
  abbrev Mine : ℕ → Tcb → Tcb → Type 0
  Mine j t t' = j ≡ me → IsKept t t'

  abbrev not_me : Licence
  not_me = record { May = λ j. j ≢ me; Fits = λ m v. Unit {0}; fits = λ m v h. tt }

  -- A callback that runs in another task leaves what the task left, and the same task runs.
  abbrev pub IsQuiet : Option (Os → Result Os) → Type 0
  IsQuiet none = Unit {0}
  IsQuiet (some f) =
      (os : Os)
      → Partly (f os) (λ os'.
        ((os.tasks.n_tasks ≤ os'.tasks.n_tasks)
          × ((j : ℕ) → j ≡ me → IsKept (os.tasks.task_list j) (os'.tasks.task_list j)))
        × (os'.running_tid ≡ os.running_tid))

  -- What another task calls. It may suspend the task, but not while that waits for a semaphore.
  abbrev pub IsOther : TaskCall → Os → Type 0
  IsOther (suspend id) os = (id ≢ me) ⊎ ((os.tasks.task_list id).state ≢ waiting_sem)
  IsOther (wait_event event timeout cb) os = IsQuiet cb
  IsOther (receive task_id msg async cb) os = IsQuiet cb
  IsOther (receive_again task_id msg async cb) os = IsQuiet cb
  IsOther _ os = Unit {0}

  -- The task itself calls nothing and does not end.
  abbrev pub IsForeign : Call → Os → Type 0
  IsForeign (in_task line c) os = (os.running_tid ≢ me) × IsOther c os
  IsForeign close os = os.running_tid ≢ me
  IsForeign _ os = Unit {0}

  module _ (cfg : Config) where
    -- The others, the interrupts and the scheduler call, in any order, and each call returns.
    pub data Meanwhile (os : Os) : Os → Type 0 where
      begin : Meanwhile os os
      further :
          (os₁ : Os) {os₂ : Os} (c : Call)
          → Meanwhile os os₁
          → IsForeign c os₁
          → call cfg c os₁ ≡ ok os₂
          → Meanwhile os os₂

    -- The task is still in the table, with what it left.
    abbrev Stays : Os → Os → Type 0
    Stays os os' =
        (me < os'.tasks.n_tasks) × IsKept (os.tasks.task_list me) (os'.tasks.task_list me)
