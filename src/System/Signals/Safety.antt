-- ===== src/System/Signals/Safety.antt =====
-- os_event/src/os_event.c: waiting and signaling keep the state of the kernel well-formed.
use coco_os.Base.{ℕ, ◌+◌, ◌%◌, ◌<◌, inl, inr, Bool, not, ◌&&◌, arith, List, [], ◌∷◌, ◌++◌}
use coco_os.Base.Tests.{ltb, leb, ◌==◌, Bool-cases}
use coco_os.Base.Lists.{All}
use coco_os.Base.Outcome.{Result, ◌>>=◌, Safe, Safe_bind, Safe_assert}
use mathlib.Core.Option.{Option, none, some}
use coco_os.Config.{Config, total_events, no_tid, no_event, isr_tid}
use coco_os.Event.{no_events, os_event_set_signaling_tid}
use coco_os.Task.Events.{os_task_wait_event, os_task_signal_event, os_task_clear_wait_queue}
use coco_os.Task.Shape.{
  os_task_wait_event-SameShape, os_task_signal_event-SameShape, os_task_clear_wait_queue-SameShape,
}
use coco_os.System.{Os, on_tasks, on_events}
use coco_os.System.Invariant.{
  IsSound, IsWell, Keeps, Keeps-refl, Keeps-bind, on_tasks-Keeps, on_events-Keeps,
}
use coco_os.System.Signals.{
  os_signal_event, event_isr_signal, signal_from, os_wait_event, scan_args, wait_args,
  wait_multiple, os_wait_multiple, run_call_back,
}

module _ (cfg : Config) (sound : IsSound cfg) (os : Os) (w : IsWell cfg os) where
  set_signaling-Keeps :
      (event tid : ℕ)
      → event < total_events cfg
      → Safe (on_events (os_event_set_signaling_tid cfg event tid) os) (Keeps cfg os)
  unfolding os_event_set_signaling_tid
  set_signaling-Keeps event tid h =
      on_events-Keeps cfg (os_event_set_signaling_tid cfg event tid) os w (ground arith)

  pub os_signal_event-Keeps :
      (event : ℕ) → event < total_events cfg → Safe (os_signal_event cfg event os) (Keeps cfg os)
  unfolding os_signal_event
  os_signal_event-Keeps event h = elim (Bool-cases (no_events cfg)) [
    | inl nothing ↦ rw nothing (Keeps-refl cfg os w)
    | inr there ↦ rw there (
        on_tasks-Keeps cfg (os_task_signal_event cfg event)
          (record os { events = record (os.events) { last_signaled_event = event } })
          (record {
            tasks_fit = w.tasks_fit;
            current = w.current;
            own_queue = w.own_queue;
            events_fit = w.events_fit;
            queues_fit = w.queues_fit;
            valid = w.valid;
            known = w.known;
            distinct = w.distinct;
          })
          (os_task_signal_event-SameShape cfg 0 os.tasks w.tasks_fit event (sound.roomy event h)))
  ]

module _ (cfg : Config) (sound : IsSound cfg) where
  pub signal_from-Keeps :
      (tid event : ℕ) (os : Os)
      → IsWell cfg os
      → event < total_events cfg
      → Safe (signal_from cfg tid event os) (Keeps cfg os)
  unfolding signal_from
  signal_from-Keeps tid event os w h =
      Keeps-bind cfg os (os_signal_event cfg event os)
        (on_events (os_event_set_signaling_tid cfg event tid))
        (os_signal_event-Keeps cfg sound os w event h)
        (λ os' k. set_signaling-Keeps cfg sound os' k.0 event tid h)

  pub event_isr_signal-Keeps :
      (event : ℕ) (os : Os)
      → IsWell cfg os
      → event < total_events cfg
      → Safe (event_isr_signal cfg event os) (Keeps cfg os)
  unfolding event_isr_signal
  event_isr_signal-Keeps event os w h = signal_from-Keeps isr_tid event os w h

  -- The callback of a wait, if there is one, keeps what the kernel keeps.
  abbrev pub IsCalm : Option (Os → Result Os) → Type 0
  IsCalm none = Unit {0}
  IsCalm (some f) = (os : Os) → IsWell cfg os → Safe (f os) (Keeps cfg os)

  run_call_back-Keeps :
      (call_back : Option (Os → Result Os)) (os : Os)
      → IsCalm call_back
      → IsWell cfg os
      → Safe (run_call_back cfg call_back os) (Keeps cfg os)
  run_call_back-Keeps none os calm w = Keeps-refl cfg os w
  run_call_back-Keeps (some f) os calm w = calm os w

  wait_event-Keeps :
      (tid event : ℕ) (single : Bool) (timeout : ℕ) (os : Os)
      → IsWell cfg os
      → event < total_events cfg
      → Safe (on_tasks (os_task_wait_event cfg tid event single timeout) os) (Keeps cfg os)
  wait_event-Keeps tid event single timeout os w h =
      on_tasks-Keeps cfg (os_task_wait_event cfg tid event single timeout) os w (
        os_task_wait_event-SameShape cfg tid event timeout single os.tasks w.tasks_fit
          (sound.roomy event h))

  pub os_wait_event-Keeps :
      (tid event : ℕ) (single : Bool) (timeout : ℕ) (call_back : Option (Os → Result Os)) (os : Os)
      → IsWell cfg os
      → IsCalm call_back
      → Safe (os_wait_event cfg tid event single timeout call_back os) (Keeps cfg os)
  unfolding os_wait_event
  os_wait_event-Keeps tid event single timeout call_back os w calm =
      elim (Bool-cases (no_events cfg)) [
        | inl nothing ↦ rw nothing (Keeps-refl cfg os w)
        | inr there ↦ elim (Bool-cases (ltb event os.events.n_events)) [
          | inr unknown ↦ rw (there, unknown) (Keeps-refl cfg os w)
          | inl known ↦
              let h : event < total_events cfg = ground (arith, known, w.events_fit) in
              rw (there, known)
                (Keeps-bind cfg os
                  (on_events (os_event_set_signaling_tid cfg event no_tid) os
                    >>= on_tasks (os_task_wait_event cfg tid event single timeout))
                  (run_call_back cfg call_back)
                  (Keeps-bind cfg os (on_events (os_event_set_signaling_tid cfg event no_tid) os)
                    (on_tasks (os_task_wait_event cfg tid event single timeout))
                    (set_signaling-Keeps cfg sound os w event no_tid h)
                    (λ os' k. wait_event-Keeps tid event single timeout os' k.0 h))
                  (λ os' k. run_call_back-Keeps call_back os' calm k.0))
        ]
      ]

  -- The events of a list are those that were configured.
  abbrev pub InRange : ℕ → Type 0
  InRange e = e < total_events cfg

  scan_args-Safe :
      (es : List ℕ) (count : ℕ) → Safe (scan_args cfg (es ++ no_event ∷ []) count) (λ e. Unit {0})
  unfolding scan_args
  scan_args-Safe [] count = tt
  scan_args-Safe (e ∷ es) count =
      elim (Bool-cases (not (e == no_event) && leb (count + 1) (total_events cfg))) [
        | inl more ↦ rw more (scan_args-Safe es (count + 1))
        | inr last ↦ rw last tt
      ]

  wait_args-Keeps :
      (all : Bool) (e : ℕ) (es : List ℕ) (os : Os)
      → IsWell cfg os
      → InRange e
      → All InRange es
      → Safe (wait_args cfg all e (es ++ no_event ∷ []) os) (Keeps cfg os)
  unfolding wait_args
  wait_args-Keeps all e [] os w h hs =
      Keeps-bind cfg os (on_tasks (os_task_wait_event cfg os.running_tid (e % 256) (not all) 0) os)
        _ (wait_event-Keeps os.running_tid (e % 256) (not all) 0 os w (omega (arith, h)))
        (λ os' k. Keeps-refl cfg os' k.0)
  wait_args-Keeps all e (f ∷ es) os w h hs =
      Keeps-bind cfg os (on_tasks (os_task_wait_event cfg os.running_tid (e % 256) (not all) 0) os)
        _ (wait_event-Keeps os.running_tid (e % 256) (not all) 0 os w (omega (arith, h)))
        (λ os' k. elim (Bool-cases (f == no_event)) [
          | inl end ↦ rw end (Keeps-refl cfg os' k.0)
          | inr more ↦ rw more (wait_args-Keeps all f es os' k.0 hs.0 hs.1)
        ])

  -- `os_wait_multiple` with one event at least before NO_EVENT.
  pub os_wait_multiple-Keeps :
      (all : Bool) (e : ℕ) (es : List ℕ) (os : Os)
      → IsWell cfg os
      → InRange e
      → All InRange es
      → os.running_tid < cfg.max_tasks
      → Safe (os_wait_multiple cfg all (e ∷ es ++ no_event ∷ []) os) (Keeps cfg os)
  unfolding os_wait_multiple wait_multiple
  os_wait_multiple-Keeps all e es os w h hs small = elim (Bool-cases (no_events cfg)) [
    | inl nothing ↦ rw nothing (Keeps-refl cfg os w)
    | inr there ↦ rw there (
        Safe_bind (scan_args cfg (es ++ no_event ∷ []) 0) _ (λ e. Unit {0}) _ (scan_args-Safe es 0)
          (λ last u. Safe_assert (last == no_event) _ _ (λ ends.
            Keeps-bind cfg os (on_tasks (os_task_clear_wait_queue cfg os.running_tid) os)
              (wait_args cfg all e (es ++ no_event ∷ []))
              (on_tasks-Keeps cfg (os_task_clear_wait_queue cfg os.running_tid) os w
                (os_task_clear_wait_queue-SameShape cfg os.running_tid os.tasks small))
              (λ os' k. wait_args-Keeps all e es os' k.0 h hs))))
  ]
