-- ===== src/System/Create.antt =====
-- os_task/src/os_task.c: `os_task_create`.
pub mod Safety
pub mod Frame
use coco_os.Base.{ℕ, zero, suc, ◌+◌, ◌%◌, false, not}
use coco_os.Base.Tests.{ltb, ◌==◌, if◌then◌else◌}
use coco_os.Base.Outcome.{Result, ok, os_assert, ◌>>=◌, ◌>>◌}
use coco_os.Config.{Config, no_queue}
use coco_os.Task.{Tasks, Tcb, ready, task_at, modify}
use coco_os.Task.Events.{os_task_clear_wait_queue}
use coco_os.MsgQueue.{Msg}
use coco_os.System.{Os, on_tasks}
use coco_os.System.Messages.{os_msg_q_create}

-- The arguments of `os_task_create`, as converted to the types of its parameters; `msg_pool` is what
-- the message pool holds.
pub record TaskSpec : Type 0 where
  pub taskproc : ℕ
  pub data_ptr : ℕ
  pub prio : ℕ
  pub msg_pool : ℕ → Msg
  pub pool_size : ℕ
  pub msg_size : ℕ

-- The fields that are set before the message queue is created.
abbrev pub new_task : TaskSpec → ℕ → Tcb → Tcb
new_task a tid t = record t {
  tid = tid;
  prio = a.prio;
  state = ready;
  saved_state = ready;
  semaphore = 0;
  internal_state = 0;
  taskproc = a.taskproc;
  wait_single_event = false;
  time = 0;
}

module _ (cfg : Config) where
  -- `while ( taskId != 0 ) { --taskId; os_assert( task_list[ taskId ].prio != prio ); }`
  unfoldable pub check_prio : ℕ → ℕ → Tasks → Result (Unit {0})
  check_prio zero prio ts = ok tt
  check_prio (suc task_id) prio ts = do
    t ← task_at cfg task_id ts
    os_assert (not (t.prio == prio))
    check_prio task_id prio ts

  abbrev create_queue : TaskSpec → ℕ → Os → Result (ℕ × Os)
  create_queue a tid os =
      if ltb 0 a.pool_size
      then os_msg_q_create cfg a.msg_pool a.pool_size a.msg_size tid os
      else ok (no_queue, os)

  unfoldable pub os_task_create : TaskSpec → Os → Result (ℕ × Os)
  os_task_create a os = do
    os_assert (os.running == 0)
    os_assert (ltb os.tasks.n_tasks cfg.max_tasks)
    os_assert (not (a.taskproc == 0))
    let n = os.tasks.n_tasks
    check_prio n a.prio os.tasks
    os₁ ← on_tasks (modify cfg n (new_task a n)) os
    (queue, os₂) ← create_queue a n os₁
    os₃ ← on_tasks (modify cfg n (λ t. record t { msg_q = queue; data_ptr = a.data_ptr })) os₂
    os₄ ← on_tasks (os_task_clear_wait_queue cfg n) os₃
    ok (n, record os₄ { tasks = record (os₄.tasks) { n_tasks = (n + 1) % 256 } })
