-- ===== src/System/Signals/Frame.antt =====
-- os_event/src/os_event.c: what waiting for events and signaling them write to the tasks.
use coco_os.Base.{inr, inl, ℕ, ◌%◌, Bool, not, List, [], ◌∷◌, arith}
use coco_os.Base.Tests.{ltb, ◌==◌, Bool-cases}
use coco_os.Base.Outcome.{Result, ◌>>=◌, Partly, Partly_bind, Partly_any}
use mathlib.Core.Option.{Option, none, some}
use coco_os.Config.{Config, no_tid, no_event, isr_tid}
use coco_os.Event.{no_events, os_event_set_signaling_tid}
use coco_os.Task.{Tcb}
use coco_os.Task.Frame.{Licence, IsFrame, u32}
use coco_os.Task.Events.{os_task_wait_event, os_task_signal_event, os_task_clear_wait_queue}
use coco_os.Task.Events.Frame.{
  os_task_wait_event-Each, os_task_signal_event-Each, os_task_clear_wait_queue-Each,
}
use coco_os.System.{Os, on_tasks, on_events}
use coco_os.System.Frame.{Steps, Steps-refl, Steps-bind, on_tasks-Steps, on_events-Steps, IsQuiet}
use coco_os.System.Signals.{
  os_signal_event, signal_from, event_isr_signal, run_call_back, os_wait_event, scan_args,
  wait_args, wait_multiple, os_wait_multiple,
}

module _ (cfg : Config) (l : Licence) (R : ℕ → Tcb → Tcb → Type 0) (frame : IsFrame l R) where
  pub os_signal_event-Steps :
      (event : ℕ) (os : Os) → Partly (os_signal_event cfg event os) (Steps R os)
  unfolding os_signal_event
  os_signal_event-Steps event os = elim (Bool-cases (no_events cfg)) [
    | inl nothing ↦ rw nothing (Steps-refl cfg l R frame os)
    | inr there ↦ rw there (
        on_tasks-Steps cfg l R frame (os_task_signal_event cfg event)
          (record os { events = record (os.events) { last_signaled_event = event } })
          (os_task_signal_event-Each cfg l R frame event os.tasks))
  ]

  pub signal_from-Steps :
      (tid event : ℕ) (os : Os) → Partly (signal_from cfg tid event os) (Steps R os)
  unfolding signal_from
  signal_from-Steps tid event os =
      Steps-bind cfg l R frame os (os_signal_event cfg event os)
        (on_events (os_event_set_signaling_tid cfg event tid)) (os_signal_event-Steps event os)
        (λ os' s. on_events-Steps cfg l R frame (os_event_set_signaling_tid cfg event tid) os')

  pub event_isr_signal-Steps :
      (event : ℕ) (os : Os) → Partly (event_isr_signal cfg event os) (Steps R os)
  unfolding event_isr_signal
  event_isr_signal-Steps event os = signal_from-Steps isr_tid event os

  run_call_back-Steps :
      (call_back : Option (Os → Result Os)) (os : Os)
      → IsQuiet cfg l R frame call_back
      → Partly (run_call_back cfg call_back os) (Steps R os)
  run_call_back-Steps none os quiet = Steps-refl cfg l R frame os
  run_call_back-Steps (some f) os quiet = quiet os

  wait_event-Steps :
      (tid event : ℕ) (single : Bool) (timeout : ℕ) (os : Os)
      → l.Fits u32 timeout
      → Partly (on_tasks (os_task_wait_event cfg tid event single timeout) os) (Steps R os)
  wait_event-Steps tid event single timeout os fits =
      on_tasks-Steps cfg l R frame (os_task_wait_event cfg tid event single timeout) os
        (os_task_wait_event-Each cfg l R frame tid event single timeout os.tasks fits)

  pub os_wait_event-Steps :
      (tid event : ℕ) (single : Bool) (timeout : ℕ) (call_back : Option (Os → Result Os)) (os : Os)
      → l.Fits u32 timeout
      → IsQuiet cfg l R frame call_back
      → Partly (os_wait_event cfg tid event single timeout call_back os) (Steps R os)
  unfolding os_wait_event
  os_wait_event-Steps tid event single timeout call_back os fits quiet =
      elim (Bool-cases (no_events cfg)) [
        | inl nothing ↦ rw nothing (Steps-refl cfg l R frame os)
        | inr there ↦ elim (Bool-cases (ltb event os.events.n_events)) [
          | inr unknown ↦ rw (there, unknown) (Steps-refl cfg l R frame os)
          | inl known ↦
              rw (there, known)
                (Steps-bind cfg l R frame os
                  (on_events (os_event_set_signaling_tid cfg event no_tid) os
                    >>= on_tasks (os_task_wait_event cfg tid event single timeout))
                  (run_call_back cfg call_back)
                  (Steps-bind cfg l R frame os
                    (on_events (os_event_set_signaling_tid cfg event no_tid) os)
                    (on_tasks (os_task_wait_event cfg tid event single timeout))
                    (on_events-Steps cfg l R frame (os_event_set_signaling_tid cfg event no_tid) os)
                    (λ os₁ s. wait_event-Steps tid event single timeout os₁ fits))
                  (λ os₂ s. run_call_back-Steps call_back os₂ quiet))
        ]
      ]

  no_timeout : l.Fits u32 0
  no_timeout = l.fits u32 0 (omega arith)

  wait_args-Steps :
      (all : Bool) (e : ℕ) (es : List ℕ) (os : Os) → Partly (wait_args cfg all e es os) (Steps R os)
  unfolding wait_args
  wait_args-Steps all e [] os =
      Steps-bind cfg l R frame os
        (on_tasks (os_task_wait_event cfg os.running_tid (e % 256) (not all) 0) os) _
        (wait_event-Steps os.running_tid (e % 256) (not all) 0 os no_timeout) (λ os' s. tt)
  wait_args-Steps all e (f ∷ es) os =
      Steps-bind cfg l R frame os
        (on_tasks (os_task_wait_event cfg os.running_tid (e % 256) (not all) 0) os) _
        (wait_event-Steps os.running_tid (e % 256) (not all) 0 os no_timeout)
        (λ os' s. elim (Bool-cases (f == no_event)) [
          | inl end ↦ rw end (Steps-refl cfg l R frame os')
          | inr more ↦ rw more (wait_args-Steps all f es os')
        ])

  wait_multiple-Steps :
      (all : Bool) (args : List ℕ) (os : Os) → Partly (wait_multiple cfg all args os) (Steps R os)
  unfolding wait_multiple
  wait_multiple-Steps all [] os = tt
  wait_multiple-Steps all (e ∷ es) os =
      Partly_bind (scan_args cfg es 0) _ _ (Steps R os) (Partly_any (scan_args cfg es 0)) (λ last u.
        elim (Bool-cases (last == no_event)) [
          | inr cut ↦ rw cut tt
          | inl ends ↦ rw ends (
              Steps-bind cfg l R frame os
                (on_tasks (os_task_clear_wait_queue cfg os.running_tid) os) (wait_args cfg all e es)
                (on_tasks-Steps cfg l R frame (os_task_clear_wait_queue cfg os.running_tid) os
                  (os_task_clear_wait_queue-Each cfg l R frame os.running_tid os.tasks))
                (λ os₁ s. wait_args-Steps all e es os₁))
        ])

  pub os_wait_multiple-Steps :
      (all : Bool) (args : List ℕ) (os : Os)
      → Partly (os_wait_multiple cfg all args os) (Steps R os)
  unfolding os_wait_multiple
  os_wait_multiple-Steps all args os = elim (Bool-cases (no_events cfg)) [
    | inl nothing ↦ rw nothing (Steps-refl cfg l R frame os)
    | inr there ↦ rw there (wait_multiple-Steps all args os)
  ]
