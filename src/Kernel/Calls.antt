-- ===== src/Kernel/Calls.antt =====
-- The calls of a program that is built on the kernel, in any order: os_kernel/include/os_kernel.h and
-- the headers that it includes. Between any two of them an interrupt may call the kernel.
pub mod Safety
pub mod Frame
use coco_os.Base.{ℕ, ◌<◌, ◌≡◌, ◌⊎◌, Bool, false, List, ◌∷◌}
use coco_os.Base.Lists.{All}
use coco_os.Base.Outcome.{Result, ok, ◌>>=◌}
use mathlib.Core.Option.{Option}
use coco_os.Config.{Config, total_events, total_semaphores, no_tid}
use coco_os.Sem.{os_sem_create}
use coco_os.Event.{event_create}
use coco_os.MsgQueue.{Msg}
use coco_os.System.{Os}
use coco_os.System.Invariant.{IsSound}
use coco_os.System.Signals.{event_isr_signal}
use coco_os.System.Signals.Safety.{IsCalm, InRange}
use coco_os.System.Create.{TaskSpec, os_task_create}
use coco_os.System.Create.Safety.{IsPool}
use coco_os.Kernel.{os_init, os_tick, os_sub_tick, os_sub_n_tick, pick}
use coco_os.Kernel.Safety.{IsZeroed}
use coco_os.Kernel.Macros.{
  os_yield, os_end, os_wait_ticks, suspend_task, resume_task, os_wait_sem, signal_sem_no_schedule,
  os_signal_sem, wait_single_event, wait_multiple_events, signal_event,
}
use coco_os.Kernel.Macros.Messages.{os_msg_q_post, post_resume, os_msg_q_receive, receive_resume}
use coco_os.Kernel.Macros.Messages.Rounds.{kept_event}

-- What the running task calls.
pub data TaskCall : Type 0 where
  yield : TaskCall
  wait_ticks : (ticks id : ℕ) → TaskCall
  suspend resume : (id : ℕ) → TaskCall
  wait_sem signal_sem : (sem : ℕ) → TaskCall
  wait_event : (event timeout : ℕ) → Option (Os → Result Os) → TaskCall
  wait_events : Bool → (event : ℕ) → List ℕ → TaskCall
  signal : (event : ℕ) → TaskCall
  post post_again : (task_id : ℕ) → Msg → (delay period async : ℕ) → TaskCall
  receive receive_again : (task_id : ℕ) → Msg → (async : ℕ) → Option (Os → Result Os) → TaskCall

-- All calls: the running task's, with the line on which it stands, those of the main program, of
-- interrupts, and the scheduler's choice.
pub data Call : Type 0 where
  in_task : (line : ℕ) → TaskCall → Call
  close : Call
  create_task : TaskSpec → Call
  create_event : Call
  create_sem : (max initial : ℕ) → Call
  start : Call
  schedule : Call
  tick : Call
  sub_tick : (id : ℕ) → Call
  sub_n_tick : (id n_ticks : ℕ) → Call
  isr_signal : (event : ℕ) → Call
  isr_signal_sem : (sem : ℕ) → Call

module _ (cfg : Config) where
  -- The state that a macro on a message leaves.
  abbrev state_of : Result (Bool × Msg × Os) → Result Os
  state_of r = r >>= λ (yielded, m, os). ok os

  unfoldable pub task_call : ℕ → TaskCall → Os → Result Os
  task_call line yield os = os_yield cfg line os
  task_call line (wait_ticks ticks id) os = os_wait_ticks cfg line ticks id os
  task_call line (suspend id) os = suspend_task cfg line id os
  task_call line (resume id) os = resume_task cfg line id os
  task_call line (wait_sem sem) os = os_wait_sem cfg line sem os
  task_call line (signal_sem sem) os = os_signal_sem cfg line sem os
  task_call line (wait_event event timeout cb) os = wait_single_event cfg line event timeout cb os
  task_call line (wait_events all event events) os =
      wait_multiple_events cfg line all (event ∷ events) os
  task_call line (signal event) os = signal_event cfg line event os
  task_call line (post task_id msg delay period async) os =
      state_of (os_msg_q_post cfg line task_id msg delay period async os)
  task_call line (post_again task_id msg delay period async) os =
      state_of (post_resume cfg line task_id msg delay period async os)
  task_call line (receive task_id msg async cb) os =
      state_of (os_msg_q_receive cfg line task_id msg async cb os)
  task_call line (receive_again task_id msg async cb) os =
      state_of (receive_resume cfg line task_id msg async cb os)

  unfoldable pub call : Call → Os → Result Os
  call (in_task line c) os = task_call line c os
  call close os = os_end cfg os
  call (create_task a) os = os_task_create cfg a os >>= λ (tid, os'). ok os'
  call create_event os = event_create cfg os.events >>= λ (e, es). ok (record os { events = es })
  call (create_sem max initial) os =
      os_sem_create cfg max initial os.sems >>= λ (sem, ss). ok (record os { sems = ss })
  call start os = ok (record os { running = 1 })
  call schedule os = pick cfg (record os { running_tid = no_tid })
  call tick os = os_tick cfg os
  call (sub_tick id) os = os_sub_tick cfg id os
  call (sub_n_tick id n_ticks) os = os_sub_n_tick cfg id n_ticks os
  call (isr_signal event) os = event_isr_signal cfg event os
  call (isr_signal_sem sem) os = signal_sem_no_schedule cfg sem os

  module _ (sound : IsSound cfg) where
    -- Semaphores and events of the tables; a macro that goes on after a wait finds the event that it
    -- kept.
    abbrev pub IsTaskCall : TaskCall → Os → Type 0
    IsTaskCall yield os = Unit {0}
    IsTaskCall (wait_ticks ticks id) os = Unit {0}
    IsTaskCall (suspend id) os = Unit {0}
    IsTaskCall (resume id) os = Unit {0}
    IsTaskCall (wait_sem sem) os = sem < total_semaphores cfg
    IsTaskCall (signal_sem sem) os = sem < total_semaphores cfg
    IsTaskCall (wait_event event timeout cb) os = IsCalm cfg sound cb
    IsTaskCall (wait_events all event events) os =
        (event < total_events cfg) × All (InRange cfg sound) events
    IsTaskCall (signal event) os = event < total_events cfg
    IsTaskCall (post task_id msg delay period async) os = Unit {0}
    IsTaskCall (post_again task_id msg delay period async) os = kept_event os < total_events cfg
    IsTaskCall (receive task_id msg async cb) os = IsCalm cfg sound cb
    IsTaskCall (receive_again task_id msg async cb) os =
        IsCalm cfg sound cb × (kept_event os < total_events cfg)

    abbrev pub IsCall : Call → Os → Type 0
    IsCall (in_task line c) os = (os.running_tid < os.tasks.n_tasks) × IsTaskCall c os
    IsCall close os = os.running_tid < os.tasks.n_tasks
    IsCall (create_task a) os = (a.pool_size ≡ 0) ⊎ IsPool cfg sound a.pool_size
    IsCall create_event os = Unit {0}
    IsCall (create_sem max initial) os = Unit {0}
    IsCall start os = Unit {0}
    IsCall schedule os = (0 < os.tasks.n_tasks) ⊎ (cfg.round_robin ≡ false)
    IsCall tick os = Unit {0}
    IsCall (sub_tick id) os = Unit {0}
    IsCall (sub_n_tick id n_ticks) os = Unit {0}
    IsCall (isr_signal event) os = event < total_events cfg
    IsCall (isr_signal_sem sem) os = sem < total_semaphores cfg

    -- The states of a program that has initialised the kernel and then made such calls, each of which
    -- returned.
    pub data Reachable : Os → Type 0 where
      init : (os : Os) {os' : Os} → IsZeroed cfg os → os_init cfg os ≡ ok os' → Reachable os'
      step :
          (os : Os) {os' : Os} (c : Call)
          → Reachable os
          → IsCall c os
          → call c os ≡ ok os'
          → Reachable os'
