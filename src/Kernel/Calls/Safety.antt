-- ===== src/Kernel/Calls/Safety.antt =====
-- os_kernel/include/os_kernel.h: every call of a program keeps the state of the kernel well-formed,
-- and none goes wrong but by a failed assertion.
use coco_os.Base.{ℕ, ◌≤◌, ◌<◌, Bool, not, arith, inl, inr}
use mathlib.Core.Path.{subst}
use coco_os.Base.Tests.{◌==◌, if◌then◌else◌, Bool-cases}
use coco_os.Base.Outcome.{Result, ok, Safe, Safe_bind, Safe_mono}
use coco_os.Config.{no_tid, Config, total_events}
use coco_os.Sem.{Sems, os_sem_create}
use coco_os.Event.{Events, event_create, no_events}
use coco_os.MsgQueue.{Msg}
use coco_os.System.{Os}
use coco_os.System.Invariant.{IsSound, IsWell, Keeps}
use coco_os.System.Signals.Safety.{event_isr_signal-Keeps}
use coco_os.System.Create.Safety.{os_task_create-IsWell, event_create-OneMore, OneMore}
use coco_os.System.Tick.Safety.{task_tick-Keeps}
use coco_os.Kernel.{pick, task_tick, os_tick, os_sub_tick, os_sub_n_tick}
use coco_os.Kernel.Safety.{os_init-IsWell, pick-IsWell}
use coco_os.Kernel.Macros.Safety.{
  Frees, os_yield-Frees, os_end-IsWell, os_wait_ticks-Frees, suspend_task-Frees, resume_task-Frees,
  os_wait_sem-Frees, os_signal_sem-Frees, signal_sem_no_schedule-Keeps, wait_single_event-Frees,
  wait_multiple_events-Frees, signal_event-Frees,
}
use coco_os.Kernel.Macros.Messages.Rounds.{Ends}
use coco_os.Kernel.Macros.Messages.Safety.{
  os_msg_q_post-Ends, post_resume-Ends, os_msg_q_receive-Ends, receive_resume-Ends,
}
use coco_os.Kernel.Calls.{
  signal_sem_no_schedule, event_isr_signal, os_task_create, TaskCall, yield, close, wait_ticks,
  suspend, resume, wait_sem, signal_sem, wait_event, wait_events, signal, post, post_again, receive,
  receive_again, Call, in_task, create_task, create_event, create_sem, start, schedule, tick,
  sub_tick, sub_n_tick, isr_signal, isr_signal_sem, state_of, task_call, call, IsTaskCall, IsCall,
  Reachable, init, step,
}

module _ (cfg : Config) (sound : IsSound cfg) where
  state_of-Frees :
      (line : ℕ) (os : Os) (r : Result (Bool × Msg × Os))
      → Safe r (Ends cfg sound line os)
      → Safe (state_of cfg r) (Frees cfg sound line os)
  state_of-Frees line os r h =
      Safe_bind r _ (Ends cfg sound line os) (Frees cfg sound line os) h (λ (y, m, os') k. k)

  pub task_call-Frees :
      (line : ℕ) (c : TaskCall) (os : Os)
      → IsWell cfg os
      → os.running_tid < os.tasks.n_tasks
      → IsTaskCall cfg sound c os
      → Safe (task_call cfg line c os) (Frees cfg sound line os)
  unfolding task_call
  task_call-Frees line yield os w runs h = os_yield-Frees cfg sound line os w runs
  task_call-Frees line (wait_ticks ticks id) os w runs h =
      os_wait_ticks-Frees cfg sound line os w runs ticks id
  task_call-Frees line (suspend id) os w runs h = suspend_task-Frees cfg sound line os w runs id
  task_call-Frees line (resume id) os w runs h = resume_task-Frees cfg sound line os w runs id
  task_call-Frees line (wait_sem sem) os w runs h = os_wait_sem-Frees cfg sound line sem os w h runs
  task_call-Frees line (signal_sem sem) os w runs h =
      os_signal_sem-Frees cfg sound line sem os w h runs
  task_call-Frees line (wait_event event timeout cb) os w runs h =
      wait_single_event-Frees cfg sound line os w runs event timeout cb h
  task_call-Frees line (wait_events all event events) os w runs h =
      wait_multiple_events-Frees cfg sound line os w runs all event events h.0 h.1
  task_call-Frees line (signal event) os w runs h =
      signal_event-Frees cfg sound line os w runs event h
  task_call-Frees line (post task_id msg delay period async) os w runs h =
      state_of-Frees line os _
        (os_msg_q_post-Ends cfg sound line task_id msg os w runs delay period async)
  task_call-Frees line (post_again task_id msg delay period async) os w runs h =
      state_of-Frees line os _
        (post_resume-Ends cfg sound line task_id msg os w runs delay period async h)
  task_call-Frees line (receive task_id msg async cb) os w runs h =
      state_of-Frees line os _
        (os_msg_q_receive-Ends cfg sound line task_id msg os w runs async cb h)
  task_call-Frees line (receive_again task_id msg async cb) os w runs h =
      state_of-Frees line os _
        (receive_resume-Ends cfg sound line task_id msg os w runs async cb h.0 h.1)

  -- What was shown of a call, with less of it.
  kept : (os : Os) (r : Result Os) → Safe r (Keeps cfg os) → Safe r (IsWell cfg)
  kept os r h = Safe_mono r (Keeps cfg os) (IsWell cfg) h (λ os' k. k.0)

  freed :
      (line : ℕ) (os : Os) (r : Result Os) → Safe r (Frees cfg sound line os) → Safe r (IsWell cfg)
  freed line os r h = Safe_mono r (Frees cfg sound line os) (IsWell cfg) h (λ os' k. k.0)

  -- The flag of the system and the semaphores are no part of what is kept.
  other-IsWell :
      (os : Os) (flag : ℕ) (ss : Sems)
      → IsWell cfg os
      → IsWell cfg (record os { running = flag; sems = ss })
  other-IsWell os flag ss w = record {
    tasks_fit = w.tasks_fit;
    current = w.current;
    own_queue = w.own_queue;
    events_fit = w.events_fit;
    queues_fit = w.queues_fit;
    valid = w.valid;
    known = w.known;
    distinct = w.distinct;
  }

  os_sem_create-Safe :
      (max initial : ℕ) (ss : Sems) → Safe (os_sem_create cfg max initial ss) (λ r. Unit {0})
  unfolding os_sem_create
  os_sem_create-Safe max initial ss = ground arith

  more_events-IsWell :
      (os : Os) (es : Events)
      → IsWell cfg os
      → os.events.n_events ≤ es.n_events
      → es.n_events ≤ total_events cfg
      → IsWell cfg (record os { events = es })
  more_events-IsWell os es w more fit = record {
    tasks_fit = w.tasks_fit;
    current = w.current;
    own_queue = w.own_queue;
    events_fit = fit;
    queues_fit = w.queues_fit;
    valid = w.valid;
    known = λ k hk. omega (arith, w.known k hk);
    distinct = w.distinct;
  }

  new_event-IsWell :
      (os : Os)
      → IsWell cfg os
      → Safe (event_create cfg os.events) (λ (e, es). IsWell cfg (record os { events = es }))
  unfolding event_create
  new_event-IsWell os w = elim (Bool-cases (no_events cfg)) [
    | inl nothing ↦ rw nothing w
    | inr there ↦
        Safe_mono (event_create cfg os.events) (OneMore cfg sound os.events) _
          (event_create-OneMore cfg sound os.events w.events_fit (ground (arith, there)))
          (λ (e, es) m. more_events-IsWell os es w (omega (arith, m.1)) m.2)
  ]

  ticked-IsWell :
      (clock_id n : ℕ) (os : Os)
      → IsWell cfg os
      → Safe (if not (clock_id == 0) then task_tick cfg clock_id n os else ok os) (IsWell cfg)
  ticked-IsWell clock_id n os w = elim (Bool-cases (clock_id == 0)) [
    | inl main ↦ rw main w
    | inr sub ↦
        rw sub (kept os (task_tick cfg clock_id n os) (task_tick-Keeps cfg sound clock_id n os w))
  ]

  call-IsWell :
      (c : Call) (os : Os)
      → IsWell cfg os
      → IsCall cfg sound c os
      → Safe (call cfg c os) (IsWell cfg)
  unfolding call os_tick os_sub_tick os_sub_n_tick
  call-IsWell (in_task line c) os w h =
      freed line os (task_call cfg line c os) (task_call-Frees line c os w h.0 h.1)
  call-IsWell close os w h = os_end-IsWell cfg sound 0 os w h
  call-IsWell (create_task a) os w h =
      Safe_bind (os_task_create cfg a os) _ (λ r. IsWell cfg r.1) (IsWell cfg)
        (os_task_create-IsWell cfg sound a os h w) (λ (tid, os') k. k)
  call-IsWell create_event os w h =
      Safe_bind (event_create cfg os.events) _ (λ (e, es). IsWell cfg (record os { events = es }))
        (IsWell cfg) (new_event-IsWell os w) (λ (e, es) k. k)
  call-IsWell (create_sem max initial) os w h =
      Safe_bind (os_sem_create cfg max initial os.sems) _ (λ r. Unit {0}) (IsWell cfg)
        (os_sem_create-Safe max initial os.sems) (λ (sem, ss) u. other-IsWell os os.running ss w)
  call-IsWell start os w h = other-IsWell os 1 os.sems w
  call-IsWell schedule os w h =
      Safe_mono (pick cfg (record os { running_tid = no_tid })) _ (IsWell cfg)
        (pick-IsWell cfg sound os w h) (λ os' k. k.0)
  call-IsWell tick os w h = kept os (task_tick cfg 0 1 os) (task_tick-Keeps cfg sound 0 1 os w)
  call-IsWell (sub_tick id) os w h = ticked-IsWell id 1 os w
  call-IsWell (sub_n_tick id n_ticks) os w h = ticked-IsWell id n_ticks os w
  call-IsWell (isr_signal event) os w h =
      kept os (event_isr_signal cfg event os) (event_isr_signal-Keeps cfg sound event os w h)
  call-IsWell (isr_signal_sem sem) os w h =
      kept os (signal_sem_no_schedule cfg sem os)
        (signal_sem_no_schedule-Keeps cfg sound 0 sem os w h)

  -- The state of a program that has initialised the kernel and then made any calls is well-formed.
  pub Reachable-IsWell : (os : Os) → Reachable cfg sound os → IsWell cfg os
  Reachable-IsWell os (init before z e) =
      subst (λ r. Safe r (IsWell cfg)) e (os_init-IsWell cfg before z)
  Reachable-IsWell os (step before c r h e) =
      subst (λ r. Safe r (IsWell cfg)) e (call-IsWell c before (Reachable-IsWell before r) h)
