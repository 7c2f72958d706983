-- ===== src/Tests/Resume.antt =====
-- The program of Calls: its task yields on line 10, the system starts, and the task is picked again.
use coco_os.System.{Os}
use coco_os.Kernel.Calls.{yield, start, schedule, task_call, call}
use coco_os.Tests.Data.{small}
use coco_os.Tests.Calls.{value, scheduled}

abbrev yielded : Os
yielded = value (task_call small 10 yield scheduled)

abbrev started : Os
started = value (call small start yielded)

abbrev again : Os
again = value (call small schedule started)
