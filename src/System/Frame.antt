-- ===== src/System/Frame.antt =====
-- The state of the kernel as a whole: what is written to the tasks, and the rules to prove it.
use coco_os.Base.{ℕ, ◌≡◌, refl, ◌∙◌}
use coco_os.Base.Outcome.{Result, ok, halt, ◌>>=◌, Partly, Partly_bind, Partly_mono}
use mathlib.Core.Option.{Option, none, some}
use coco_os.Config.{Config}
use coco_os.Task.{Tcb, Tasks}
use coco_os.Sem.{Sems}
use coco_os.Event.{Events}
use coco_os.Task.Frame.{Licence, IsFrame, Each, Each-refl, Each-trans}
use coco_os.System.{Os, on_tasks, on_sems, on_events}

-- Each task is related to what it was, and the same task runs.
abbrev pub Steps : (ℕ → Tcb → Tcb → Type 0) → Os → Os → Type 0
Steps R os os' = Each R os.tasks os'.tasks × (os'.running_tid ≡ os.running_tid)

module _ (cfg : Config) (l : Licence) (R : ℕ → Tcb → Tcb → Type 0) (frame : IsFrame l R) where
  pub Steps-refl : (os : Os) → Steps R os os
  Steps-refl os = (Each-refl cfg l R frame os.tasks, refl)

  pub Steps-trans : (os os' : Os) → Steps R os os' → (os₂ : Os) → Steps R os' os₂ → Steps R os os₂
  Steps-trans os os' h os₂ k =
      (Each-trans cfg l R frame os.tasks os'.tasks h.0 os₂.tasks k.0, k.1 ∙ h.1)

  -- The rule for two calls.
  pub Steps-bind :
      (os : Os) (r : Result Os) (f : Os → Result Os)
      → Partly r (Steps R os)
      → ((os' : Os) → Steps R os os' → Partly (f os') (Steps R os'))
      → Partly (r >>= f) (Steps R os)
  Steps-bind os r f h k =
      Partly_bind r f (Steps R os) (Steps R os) h
        (λ os' s. Partly_mono (f os') (Steps R os') (Steps R os) (k os' s) (Steps-trans os os' s))

  pub on_tasks-Steps :
      (f : Tasks → Result Tasks) (os : Os)
      → Partly (f os.tasks) (Each R os.tasks)
      → Partly (on_tasks f os) (Steps R os)
  on_tasks-Steps f os h =
      Partly_bind (f os.tasks) (λ ts. ok (record os { tasks = ts })) (Each R os.tasks) (Steps R os)
        h (λ ts s. (s, refl))

  pub on_sems-Steps : (f : Sems → Result Sems) (os : Os) → Partly (on_sems f os) (Steps R os)
  on_sems-Steps f os =
      elim (f os.sems) as (λ r. Partly (r >>= λ ss. ok (record os { sems = ss })) (Steps R os)) [
        | ok ss ↦ Steps-refl os
        | halt e ↦ tt
      ]

  pub on_events-Steps :
      (f : Events → Result Events) (os : Os) → Partly (on_events f os) (Steps R os)
  on_events-Steps f os =
      elim (f os.events)
        as (λ r. Partly (r >>= λ es. ok (record os { events = es })) (Steps R os)) [
          | ok es ↦ Steps-refl os
          | halt e ↦ tt
        ]

  -- The callback of a wait, if there is one, writes no more than the kernel.
  abbrev pub IsQuiet : Option (Os → Result Os) → Type 0
  IsQuiet none = Unit {0}
  IsQuiet (some f) = (os : Os) → Partly (f os) (Steps R os)
