-- ===== src/Kernel/Macros/Live.antt =====
-- os_sem/include/os_sem.h: tasks that wait for semaphores and signal them, in any order.
use coco_os.Base.{ℕ, ◌≤◌, ◌<◌, ◌≡◌, arith, List, [], ◌∷◌}
use coco_os.Base.Lists.{All}
use mathlib.Core.Path.{subst, sym}
use coco_os.Base.Outcome.{Result, ok, Returns, Returns_bind, ◌>>=◌}
use coco_os.Config.{Config, total_semaphores}
use coco_os.System.{Os}
use coco_os.Kernel.Macros.{os_wait_sem, os_signal_sem, signal_sem_no_schedule}
use coco_os.Kernel.Macros.Waits.{IsLive, wait-IsLive, signal_isr-IsLive, signal-IsLive}

-- What the task `tid` does when it is scheduled, or an interrupt in its place.
pub data SemAction : Type 0 where
  wait signal isr_signal : ℕ → ℕ → ℕ → SemAction

module _ (cfg : Config) (small : cfg.max_tasks < 255) where
  pub act : SemAction → Os → Result Os
  act (wait tid line sem) os = os_wait_sem cfg line sem (record os { running_tid = tid })
  act (signal tid line sem) os = os_signal_sem cfg line sem (record os { running_tid = tid })
  act (isr_signal tid line sem) os =
      signal_sem_no_schedule cfg sem (record os { running_tid = tid })

  pub acts : List SemAction → Os → Result Os
  acts [] os = ok os
  acts (a ∷ rest) os = act a os >>= acts rest

  -- The task and the semaphore are those of a table.
  abbrev pub IsAction : ℕ → SemAction → Type 0
  IsAction n (wait tid line sem) = (tid < n) × (sem < total_semaphores cfg)
  IsAction n (signal tid line sem) = (tid < n) × (sem < total_semaphores cfg)
  IsAction n (isr_signal tid line sem) = (tid < n) × (sem < total_semaphores cfg)

  act-IsLive :
      (a : SemAction) (os : Os)
      → IsAction os.tasks.n_tasks a
      → os.tasks.n_tasks ≤ cfg.max_tasks
      → IsLive os
      → Returns (act a os) (λ os'. (os'.tasks.n_tasks ≡ os.tasks.n_tasks) × IsLive os')
  unfolding act
  act-IsLive (wait tid line sem) os h le live =
      wait-IsLive cfg sem (record os { running_tid = tid }) h.1 le small line h.0 live
  act-IsLive (signal tid line sem) os h le live =
      signal-IsLive cfg sem (record os { running_tid = tid }) h.1 le small line h.0 live
  act-IsLive (isr_signal tid line sem) os h le live =
      signal_isr-IsLive cfg sem (record os { running_tid = tid }) h.1 le small live

  -- Whatever tasks are scheduled one after the other, and wait for semaphores of the table or signal
  -- them, with or without giving up the processor: each call returns, and at the end, as at the
  -- start, no task waits for a semaphore whose value is above 0.
  pub acts-IsLive :
      (rest : List SemAction) (os : Os)
      → All (IsAction os.tasks.n_tasks) rest
      → os.tasks.n_tasks ≤ cfg.max_tasks
      → IsLive os
      → Returns (acts rest os) IsLive
  unfolding acts
  acts-IsLive [] os h le live = live
  acts-IsLive (a ∷ rest) os h le live =
      Returns_bind (act a os) (acts rest) _ _ (act-IsLive a os h.0 le live) (λ os' r.
        acts-IsLive rest os' (subst (λ n. All (IsAction n) rest) (sym r.0) h.1) (omega (arith, r.0))
          r.1)
