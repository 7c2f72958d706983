-- ===== src/Kernel/Api/Reentry.antt =====
-- os_kernel/include/os_reentry.h: where a task goes on after a macro that gave up the processor.
use coco_os.Base.{ℕ, ◌≡◌, ◌⊎◌}
use coco_os.Base.Outcome.{ok}
use coco_os.Config.{Config, no_tid}
use coco_os.System.{Os}
use coco_os.Kernel.Api.{task_open}

module _ (cfg : Config) where
  -- The task goes on behind the macro: right away, or when it is scheduled again.
  abbrev pub GoesOn : ℕ → Os → Os → Type 0
  GoesOn line os os' =
      (os'.running_tid ≡ os.running_tid)
      ⊎ ((os'.running_tid ≡ no_tid)
          × (task_open cfg (record os' { running_tid = os.running_tid }) ≡ ok line))
