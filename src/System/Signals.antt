-- ===== src/System/Signals.antt =====
-- os_event/src/os_event.c and os_event/include/os_event.h: waiting for events and signaling them.
pub mod Isr
pub mod Multiple
pub mod Safety
pub mod Frame
use coco_os.Base.{ℕ, ◌+◌, ◌%◌, Bool, ◌&&◌, not, List, [], ◌∷◌}
use coco_os.Base.Tests.{ltb, leb, ◌==◌, if◌then◌else◌}
use coco_os.Base.Outcome.{Result, ok, halt, bad_access, os_assert, ◌>>=◌, ◌>>◌}
use mathlib.Core.Option.{Option, none, some}
use coco_os.Config.{Config, total_events, no_tid, no_event, isr_tid}
use coco_os.Event.{no_events, os_event_set_signaling_tid}
use coco_os.Task.Events.{os_task_wait_event, os_task_signal_event, os_task_clear_wait_queue}
use coco_os.System.{Os, on_tasks, on_events}

module _ (cfg : Config) where
  unfoldable pub os_signal_event : ℕ → Os → Result Os
  os_signal_event event os =
      if no_events cfg
      then ok os
      else on_tasks (os_task_signal_event cfg event)
          (record os { events = record (os.events) { last_signaled_event = event } })

  -- `OS_INT_SIGNAL_EVENT`, and `OS_SIGNAL_EVENT` up to its yield
  pub signal_from : ℕ → ℕ → Os → Result Os
  unfolding os_signal_event
  signal_from tid event os =
      os_signal_event event os >>= on_events (os_event_set_signaling_tid cfg event tid)

  pub event_isr_signal : ℕ → Os → Result Os
  unfolding signal_from
  event_isr_signal = signal_from isr_tid

  -- What the optional function pointer does is the caller's.
  abbrev run_call_back : Option (Os → Result Os) → Os → Result Os
  run_call_back none os = ok os
  run_call_back (some f) os = f os

  unfoldable pub os_wait_event : ℕ → ℕ → Bool → ℕ → Option (Os → Result Os) → Os → Result Os
  os_wait_event tid event single timeout call_back os =
      if no_events cfg
      then ok os
      else if ltb event os.events.n_events
      then (on_events (os_event_set_signaling_tid cfg event no_tid) os
          >>= on_tasks (os_task_wait_event cfg tid event single timeout)
          >>= run_call_back call_back)
      else ok os

  -- The scan of the argument list, up to NO_EVENT or N_TOTAL_EVENTS + 1 arguments after the first.
  -- To read past the list is `bad_access`.
  pub scan_args : List ℕ → ℕ → Result ℕ
  scan_args [] count = halt bad_access
  scan_args (e ∷ es) count =
      let rest = scan_args es (count + 1) in
      if not (e == no_event) && leb (count + 1) (total_events cfg) then rest else ok e

  -- `event` is the argument at hand, and the list what is left behind it.
  pub wait_args : Bool → ℕ → List ℕ → Os → Result Os
  wait_args wait_for_all event [] os =
      on_tasks (os_task_wait_event cfg os.running_tid (event % 256) (not wait_for_all) 0) os
      >>= λ _. halt bad_access
  wait_args wait_for_all event (e ∷ es) os =
      on_tasks (os_task_wait_event cfg os.running_tid (event % 256) (not wait_for_all) 0) os
      >>= λ os'.
          let rest = wait_args wait_for_all e es os' in if e == no_event then ok os' else rest

  wait_multiple : Bool → List ℕ → Os → Result Os
  wait_multiple wait_for_all [] os = halt bad_access
  wait_multiple wait_for_all (e ∷ es) os = do
    last ← scan_args es 0
    os_assert (last == no_event)
    os₁ ← on_tasks (os_task_clear_wait_queue cfg os.running_tid) os
    wait_args wait_for_all e es os₁

  unfoldable pub os_wait_multiple : Bool → List ℕ → Os → Result Os
  unfolding wait_multiple scan_args wait_args
  os_wait_multiple wait_for_all args os =
      if no_events cfg then ok os else wait_multiple wait_for_all args os
