-- ===== src/System/Signals/Isr.antt =====
-- os_event/include/os_event.h: what an interrupt's signal leaves as it is.
use coco_os.Base.{false, ℕ, ◌/◌, ◌≤◌, ◌<◌, ◌≡◌, refl, arith}
use coco_os.Base.Tests.{◌==◌}
use coco_os.Base.Outcome.{Returns, Returns_bind}
use coco_os.Config.{Config, total_events, event_queue_size, isr_tid}
use coco_os.Event.{Events, os_event_set_signaling_tid}
use coco_os.Task.Loop.{EachTask}
use coco_os.Task.Events.{os_task_signal_event}
use coco_os.Task.Events.Signal.{signaled, os_task_signal_event_lem}
use coco_os.System.{Os, on_tasks, on_events}
use coco_os.System.Signals.{os_signal_event, signal_from, event_isr_signal}

module _ (cfg : Config) (event : ℕ) (known : event < total_events cfg)
    (fits : event / 8 < event_queue_size cfg) where
  abbrev pub Signaled : Os → Os → Type 0
  Signaled os os' = (os'.queues ≡ os.queues) × EachTask os.tasks (signaled cfg event) os'.tasks

  marked :
      (tid : ℕ) (es : Events)
      → Returns (os_event_set_signaling_tid cfg event tid es) (λ es'. Unit {0})
  unfolding os_event_set_signaling_tid
  marked tid es = ground arith

  pub signal_from_lem :
      (tid : ℕ) (os : Os)
      → os.tasks.n_tasks ≤ cfg.max_tasks
      → Returns (signal_from cfg tid event os) (Signaled os)
  unfolding signal_from os_signal_event
  signal_from_lem tid os le =
      let some : (total_events cfg == 0) ≡ false = ground arith in
      rw some (
        Returns_bind
          (on_tasks (os_task_signal_event cfg event)
            (record os { events = record (os.events) { last_signaled_event = event } }))
          (on_events (os_event_set_signaling_tid cfg event tid)) (Signaled os) _
          (Returns_bind (os_task_signal_event cfg event os.tasks) _
            (EachTask os.tasks (signaled cfg event)) _
            (os_task_signal_event_lem cfg event fits os.tasks le) (λ ts h. (refl, h)))
          (λ os' h.
            Returns_bind (os_event_set_signaling_tid cfg event tid os'.events) _ _ _
              (marked tid os'.events) (λ es u. h)))

  pub event_isr_signal_lem :
      (os : Os)
      → os.tasks.n_tasks ≤ cfg.max_tasks
      → Returns (event_isr_signal cfg event os) (Signaled os)
  unfolding event_isr_signal
  event_isr_signal_lem os le = signal_from_lem isr_tid os le
