-- ===== src/Tests/Data.antt =====
-- A small configuration, and tasks, queues and messages for it.
use coco_os.Base.Tests.{◌==◌, if◌then◌else◌}
use coco_os.Base.{ℕ, false, []}
use coco_os.Config.{Config}
use coco_os.Task.{Tcb, Tasks, TaskState, ready, waiting_event, killed}
use coco_os.MsgQueue.{Msg, OsQueue}

abbrev pub small : Config
small = record {
  max_tasks = 3;
  max_queues = 2;
  max_semaphores = 2;
  max_events = 8;
  round_robin = false;
}

abbrev pub task : TaskState → ℕ → Tcb
task s prio = record {
  taskproc = 1;
  state = s;
  saved_state = ready;
  internal_state = 0;
  time = 0;
  tid = prio;
  prio = prio;
  semaphore = 0;
  msg_q = 255;
  wait_q = 0;
  msg_change_event = 0;
  msg_result = 0;
  wait_single_event = false;
  clock_id = 0;
  event_queue = λ j. 0;
  data_ptr = 0;
}

-- It waits for the events 1 and 2.
abbrev pub waiter : Tcb
waiter = record (task waiting_event 2) { event_queue = λ j. if j == 0 then 6 else 0 }

-- Three tasks: one that waits, a killed one, and a ready one.
abbrev pub three : ℕ → Tcb
three i = if i == 0 then waiter else if i == 1 then task killed 1 else task ready 7

abbrev pub table : Tasks
table = record { task_list = three; n_tasks = 3; last_running_task = 2 }

abbrev pub message : ℕ → ℕ → ℕ → Msg
message s delay reload = record {
  signal = s;
  reserved = 0;
  delay = delay;
  reload = reload;
  rest = [];
}

-- Round the end of a buffer of four: one message that is delayed, then one that is due.
abbrev pub slots : ℕ → Msg
slots i = if i == 3 then message 10 5 0 else if i == 0 then message 20 0 9 else message 0 0 0

abbrev pub queue : OsQueue
queue = record { list = slots; message_size = 12; head = 1; tail = 2; size = 4 }
