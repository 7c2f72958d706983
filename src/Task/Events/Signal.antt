-- ===== src/Task/Events/Signal.antt =====
-- os_task/src/os_task.c: what `os_task_signal_event` does to each task.
use coco_os.Base.{true, false, ℕ, ◌≤◌, ◌<◌, ◌≡◌, ◌||◌, ◌&&◌, arith}
use coco_os.Base.Tests.{◌==◌, if◌then◌else◌}
use coco_os.Base.Outcome.{Returns}
use coco_os.Config.{Config, event_queue_size}
use coco_os.Task.{Tasks, Tcb, ready}
use coco_os.Task.Loop.{EachTask, each_task}
use coco_os.Task.Events.{
  awaits, is_waiting_event, drop_event, clear_wait_queue, no_byte_set, event_index, signal_task,
  os_task_signal_event,
}

module _ (cfg : Config) (event : ℕ) where
  -- One task after the signal.
  unfoldable pub signaled : Tcb → Tcb
  signaled t =
      let d = drop_event event t in
      if awaits t event && is_waiting_event t.state
      then (if t.wait_single_event || no_byte_set (event_queue_size cfg) d.event_queue
          then record (clear_wait_queue cfg d) { state = ready }
          else d)
      else t

  pub signaled_unmoved :
      (t : Tcb) → (awaits t event && is_waiting_event t.state) ≡ false → signaled t ≡ t
  unfolding signaled
  signaled_unmoved t h = ground arith

  pub signaled_last :
      (t : Tcb)
      → (awaits t event && is_waiting_event t.state) ≡ true
      → (t.wait_single_event || no_byte_set (event_queue_size cfg) (drop_event event t).event_queue)
        ≡ true
      → signaled t ≡ record (clear_wait_queue cfg (drop_event event t)) { state = ready }
  unfolding signaled
  signaled_last t h l = ground arith

  pub signaled_more :
      (t : Tcb)
      → (awaits t event && is_waiting_event t.state) ≡ true
      → (t.wait_single_event || no_byte_set (event_queue_size cfg) (drop_event event t).event_queue)
        ≡ false
      → signaled t ≡ drop_event event t
  unfolding signaled
  signaled_more t h l = ground arith

  module _ (fits : event_index event < event_queue_size cfg) where
    signal_task_lem :
        (i j : ℕ) (ts : Tasks)
        → i < cfg.max_tasks
        → i < ts.n_tasks
        → Returns (signal_task cfg event i ts) (λ ts'.
          (ts'.n_tasks ≡ ts.n_tasks)
          × (ts'.last_running_task ≡ ts.last_running_task)
          × (ts'.task_list j ≡ (if i == j then signaled (ts.task_list j) else ts.task_list j)))
    unfolding signal_task signaled
    signal_task_lem i j ts hm hi = ground arith

    -- With the byte of the event in the wait queue, `os_task_signal_event` returns, and each task of
    -- the table has become `signaled`; nothing else changes.
    pub os_task_signal_event_lem :
        (ts : Tasks)
        → ts.n_tasks ≤ cfg.max_tasks
        → Returns (os_task_signal_event cfg event ts) (EachTask ts signaled)
    unfolding os_task_signal_event
    os_task_signal_event_lem ts le =
        each_task ts signaled (signal_task cfg event)
          (λ i j s hi same. signal_task_lem i j s (omega arith) (omega arith))
