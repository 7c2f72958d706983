-- ===== src/System.antt =====
-- The state of the whole kernel, and the functions that reach from one component into another:
-- os_event/src/os_event.c sets tasks, os_msgqueue/src/os_msgqueue.c creates and signals events, and
-- os_task/src/os_task.c creates and ticks queues.
pub mod Signals
pub mod Messages
pub mod Create
pub mod Tick
pub mod Invariant
pub mod Frame
pub mod NewTask
use coco_os.Base.{ℕ}
use coco_os.Base.Outcome.{Result, ok, ◌>>=◌}
use coco_os.Task.{Tasks}
use coco_os.Sem.{Sems}
use coco_os.Event.{Events}
use coco_os.MsgQueue.{Queues}

-- `running` and `running_tid` are the static variables of os_kernel/src/os_kernel.c. `running_tid`
-- is only ever given a task id or NO_TID, so it fits a byte.
pub record Os : Type 0 where
  pub running : ℕ
  pub running_tid : ℕ
  pub tasks : Tasks
  pub sems : Sems
  pub events : Events
  pub queues : Queues

abbrev pub on_tasks : (Tasks → Result Tasks) → Os → Result Os
on_tasks f os = do ts ← f os.tasks; ok (record os { tasks = ts })

abbrev pub on_events : (Events → Result Events) → Os → Result Os
on_events f os = do es ← f os.events; ok (record os { events = es })

abbrev pub on_sems : (Sems → Result Sems) → Os → Result Os
on_sems f os = do ss ← f os.sems; ok (record os { sems = ss })
