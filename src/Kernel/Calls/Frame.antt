-- ===== src/Kernel/Calls/Frame.antt =====
-- os_kernel/include/os_kernel.h: what each call of a program writes to the tasks.
use coco_os.Base.{true, false, ◌∷◌, ℕ, ◌<◌, ◌≢◌, ◌⊎◌, inl, inr, Bool, not}
use coco_os.Base.Tests.{◌==◌, if◌then◌else◌, Bool-cases}
use coco_os.Base.Outcome.{Result, ok, Partly, Partly_bind, Partly_any}
use coco_os.Config.{Config, no_tid}
use coco_os.Sem.{os_sem_create}
use coco_os.Event.{event_create}
use coco_os.MsgQueue.{Msg}
use coco_os.Task.{Tcb, waiting_sem}
use coco_os.Task.Frame.{Licence, IsFrame, Each, Each-refl, u32}
use coco_os.Task.Schedule.{highest_prio_ready_task, next_ready_task}
use coco_os.Task.Schedule.Frame.{next_ready_task-Each}
use coco_os.System.{Os}
use coco_os.System.Frame.{Steps, IsQuiet}
use coco_os.System.Signals.Frame.{event_isr_signal-Steps}
use coco_os.System.Create.{new_task, TaskSpec, os_task_create}
use coco_os.System.Create.Frame.{os_task_create-Steps}
use coco_os.System.Tick.{task_tick}
use coco_os.System.Tick.Frame.{task_tick-Steps}
use coco_os.Kernel.{pick, os_tick, os_sub_tick, os_sub_n_tick}
use coco_os.Kernel.Macros.Frame.{
  Writes, stepped, os_yield-Writes, os_end-Writes, os_wait_ticks-Writes, suspend_task-Writes,
  resume_task-Writes, os_wait_sem-Writes, os_signal_sem-Writes, signal_sem_no_schedule-Steps,
  wait_single_event-Writes, wait_multiple_events-Writes, signal_event-Writes,
}
use coco_os.Kernel.Macros.Messages.Frame.{
  Numbered, Wrote, os_msg_q_post-Wrote, post_resume-Wrote, os_msg_q_receive-Wrote,
  receive_resume-Wrote,
}
use coco_os.Kernel.Calls.{
  signal_sem_no_schedule, event_isr_signal, TaskCall, yield, wait_ticks, suspend, resume, wait_sem,
  signal_sem, wait_event, wait_events, signal, post, post_again, receive, receive_again, Call,
  in_task, close, create_task, create_event, create_sem, start, schedule, tick, sub_tick,
  sub_n_tick, isr_signal, isr_signal_sem, state_of, task_call, call,
}

module _ (cfg : Config) (l : Licence) (R : ℕ → Tcb → Tcb → Type 0) (frame : IsFrame l R) where
  -- The call keeps to the licence.
  abbrev pub KeepsTo : TaskCall → Os → Type 0
  KeepsTo yield os = Unit {0}
  KeepsTo (wait_ticks ticks id) os = l.Fits u32 ticks × l.Fits 256 id
  KeepsTo (suspend id) os = (l.May id) ⊎ ((os.tasks.task_list id).state ≢ waiting_sem)
  KeepsTo (resume id) os = Unit {0}
  KeepsTo (wait_sem sem) os = l.Fits 65536 sem
  KeepsTo (signal_sem sem) os = Unit {0}
  KeepsTo (wait_event event timeout cb) os = l.Fits u32 timeout × IsQuiet cfg l R frame cb
  KeepsTo (wait_events all event events) os = Unit {0}
  KeepsTo (signal event) os = Unit {0}
  KeepsTo (post task_id msg delay period async) os = Numbered cfg l task_id os
  KeepsTo (post_again task_id msg delay period async) os = Unit {0}
  KeepsTo (receive task_id msg async cb) os = Numbered cfg l task_id os × IsQuiet cfg l R frame cb
  KeepsTo (receive_again task_id msg async cb) os = IsQuiet cfg l R frame cb

  -- A new task may be set up behind the last of the table.
  abbrev pub CanAdd : TaskSpec → Os → Type 0
  CanAdd a os =
      ((t : Tcb) → R os.tasks.n_tasks t (new_task a os.tasks.n_tasks t))
      × ((t : Tcb) (q : ℕ)
          → l.Fits 256 q
          → R os.tasks.n_tasks t (record t { msg_q = q; data_ptr = a.data_ptr }))
      × l.Fits 256 os.queues.n_queues

  abbrev pub CallKeepsTo : Call → Os → Type 0
  CallKeepsTo (in_task line c) os = l.May os.running_tid × KeepsTo c os
  CallKeepsTo close os = Unit {0}
  CallKeepsTo (create_task a) os = CanAdd a os
  CallKeepsTo create_event os = Unit {0}
  CallKeepsTo (create_sem max initial) os = Unit {0}
  CallKeepsTo start os = Unit {0}
  CallKeepsTo schedule os = Unit {0}
  CallKeepsTo tick os = Unit {0}
  CallKeepsTo (sub_tick id) os = Unit {0}
  CallKeepsTo (sub_n_tick id n_ticks) os = Unit {0}
  CallKeepsTo (isr_signal event) os = Unit {0}
  CallKeepsTo (isr_signal_sem sem) os = Unit {0}

  state_of-Writes :
      (os : Os) (r : Result (Bool × Msg × Os))
      → Partly r (Wrote R os)
      → Partly (state_of cfg r) (Writes R os)
  state_of-Writes os r h = Partly_bind r _ (Wrote R os) (Writes R os) h (λ (y, m, os') k. k)

  task_call-Writes :
      (line : ℕ) (c : TaskCall) (os : Os)
      → l.May os.running_tid
      → KeepsTo c os
      → Partly (task_call cfg line c os) (Writes R os)
  unfolding task_call
  task_call-Writes line yield os may h = os_yield-Writes cfg l R frame line os may
  task_call-Writes line (wait_ticks ticks id) os may h =
      os_wait_ticks-Writes cfg l R frame line os may ticks id h.0 h.1
  task_call-Writes line (suspend id) os may h = suspend_task-Writes cfg l R frame line os may id h
  task_call-Writes line (resume id) os may h = resume_task-Writes cfg l R frame line os may id
  task_call-Writes line (wait_sem sem) os may h = os_wait_sem-Writes cfg l R frame line os may sem h
  task_call-Writes line (signal_sem sem) os may h =
      os_signal_sem-Writes cfg l R frame line os may sem
  task_call-Writes line (wait_event event timeout cb) os may h =
      wait_single_event-Writes cfg l R frame line os may event timeout cb h.0 h.1
  task_call-Writes line (wait_events all event events) os may h =
      wait_multiple_events-Writes cfg l R frame line os may all (event ∷ events)
  task_call-Writes line (signal event) os may h =
      signal_event-Writes cfg l R frame line os may event
  task_call-Writes line (post task_id msg delay period async) os may h =
      state_of-Writes os _
        (os_msg_q_post-Wrote cfg l R frame line task_id msg os may delay period async h)
  task_call-Writes line (post_again task_id msg delay period async) os may h =
      state_of-Writes os _
        (post_resume-Wrote cfg l R frame line task_id msg os may delay period async)
  task_call-Writes line (receive task_id msg async cb) os may h =
      state_of-Writes os _
        (os_msg_q_receive-Wrote cfg l R frame line task_id msg os may async cb h.0 h.1)
  task_call-Writes line (receive_again task_id msg async cb) os may h =
      state_of-Writes os _ (receive_resume-Wrote cfg l R frame line task_id msg os may async cb h)

  either :
      (b : Bool) (os : Os) (r s : Result Os)
      → Partly r (Writes R os)
      → Partly s (Writes R os)
      → Partly (if b then r else s) (Writes R os)
  either true os r s h k = h
  either false os r s h k = k

  pick-Writes : (os : Os) → Partly (pick cfg os) (Writes R os)
  unfolding pick
  pick-Writes os =
      either cfg.round_robin os _ _
        (Partly_bind (next_ready_task cfg os.tasks) _ (Each R os.tasks) (Writes R os)
          (next_ready_task-Each cfg l R frame os.tasks) (λ ts s. s))
        (Partly_bind (highest_prio_ready_task cfg os.tasks) _ _ (Writes R os)
          (Partly_any (highest_prio_ready_task cfg os.tasks))
          (λ tid u. Each-refl cfg l R frame os.tasks))

  ticked-Writes :
      (clock_id n : ℕ) (os : Os)
      → Partly (if not (clock_id == 0) then task_tick cfg clock_id n os else ok os) (Writes R os)
  ticked-Writes clock_id n os = elim (Bool-cases (clock_id == 0)) [
    | inl main ↦ rw main (Each-refl cfg l R frame os.tasks)
    | inr sub ↦
        rw sub
          (stepped R os (task_tick cfg clock_id n os) (task_tick-Steps cfg l R frame clock_id n os))
  ]

  pub call-Writes :
      cfg.max_tasks < 255
      → (c : Call) (os : Os) → CallKeepsTo c os
      → Partly (call cfg c os) (Writes R os)
  unfolding call os_tick os_sub_tick os_sub_n_tick
  call-Writes small (in_task line c) os h = task_call-Writes line c os h.0 h.1
  call-Writes small close os h = os_end-Writes cfg l R frame 0 os
  call-Writes small (create_task a) os h =
      Partly_bind (os_task_create cfg a os) _ (λ r. Steps R os r.1) (Writes R os)
        (os_task_create-Steps cfg l R frame a os small h.0 h.1 h.2) (λ (tid, os') s. s.0)
  call-Writes small create_event os h =
      Partly_bind (event_create cfg os.events) _ _ (Writes R os)
        (Partly_any (event_create cfg os.events)) (λ (e, es) u. Each-refl cfg l R frame os.tasks)
  call-Writes small (create_sem max initial) os h =
      Partly_bind (os_sem_create cfg max initial os.sems) _ _ (Writes R os)
        (Partly_any (os_sem_create cfg max initial os.sems))
        (λ (sem, ss) u. Each-refl cfg l R frame os.tasks)
  call-Writes small start os h = Each-refl cfg l R frame os.tasks
  call-Writes small schedule os h = pick-Writes (record os { running_tid = no_tid })
  call-Writes small tick os h =
      stepped R os (task_tick cfg 0 1 os) (task_tick-Steps cfg l R frame 0 1 os)
  call-Writes small (sub_tick id) os h = ticked-Writes id 1 os
  call-Writes small (sub_n_tick id n_ticks) os h = ticked-Writes id n_ticks os
  call-Writes small (isr_signal event) os h =
      stepped R os (event_isr_signal cfg event os) (event_isr_signal-Steps cfg l R frame event os)
  call-Writes small (isr_signal_sem sem) os h =
      stepped R os (signal_sem_no_schedule cfg sem os)
        (signal_sem_no_schedule-Steps cfg l R frame 0 sem os)
