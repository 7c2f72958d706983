-- ===== src/Tests/Multiple.antt =====
-- `os_wait_multiple` on the small table.
use coco_os.Base.{◌≡◌, ◌⊎◌, ◌≤◌, ◌<◌, true, false, arith, [], ◌∷◌}
use coco_os.Base.Outcome.{◌>>=◌, Returns, halt, assertion}
use coco_os.Task.{is, ready}
use coco_os.System.{Os}
use coco_os.System.Signals.{os_wait_multiple}
use coco_os.System.Signals.Multiple.{os_signal_events, os_wait_multiple-os_signal_events}
use coco_os.Tests.Data.{small, table}
use coco_os.Tests.Kernel.{waiting_os}
use coco_os.Tests.Calls.{small-IsSound}

-- The ready task of the table runs.
abbrev running : Os
running = record waiting_os { tasks = table; running_tid = 2 }

-- It waits for the event 3 or the event 9, and 4 and 9 are signaled.
os_wait_multiple-os_signal_events_example :
    ((1 ≤ 10)
      × Returns
          (os_wait_multiple small false (3 ∷ 9 ∷ 255 ∷ []) running
            >>= os_signal_events small small-IsSound (4 ∷ 9 ∷ []))
          (λ os. is (os.tasks.task_list 2).state ready ≡ true))
    ⊎ ((10 < 1) × (os_wait_multiple small false (3 ∷ 9 ∷ 255 ∷ []) running ≡ halt assertion))
os_wait_multiple-os_signal_events_example =
    os_wait_multiple-os_signal_events small small-IsSound false 3 (9 ∷ []) (4 ∷ 9 ∷ [])
      (omega arith, (omega arith, tt)) (omega arith, (omega arith, tt)) running (omega arith)
      (omega arith) (λ j. omega arith)
