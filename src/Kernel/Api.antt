-- ===== src/Kernel/Api.antt =====
-- os_kernel/include/os_kernel.h: the names by which a program calls the kernel, and the accessors of
-- os_kernel/src/os_kernel.c. `line` is the line on which the macro stands.
pub mod Reentry
pub mod Resume
use coco_os.Base.{ℕ, Bool, List}
use coco_os.Base.Outcome.{Result, ok}
use mathlib.Core.Option.{Option, none}
use coco_os.Config.{Config}
use coco_os.Task.Fields.{task_internal_state_get, os_task_timeout_get}
use coco_os.MsgQueue.{Msg}
use coco_os.System.{Os}
use coco_os.System.Signals.{event_isr_signal}
use coco_os.Kernel.Macros.{
  os_end, os_wait_ticks, suspend_task, resume_task, os_wait_sem, signal_sem_no_schedule,
  os_signal_sem, wait_single_event, wait_multiple_events, signal_event,
}
use coco_os.Kernel.Macros.Messages.{os_msg_q_post, os_msg_q_receive}

pub os_running : Os → ℕ
os_running os = os.running

pub os_get_running_tid : Os → ℕ
os_get_running_tid os = os.running_tid

-- The callback that the kernel comes with does nothing.
pub os_cbk_sleep : Os → Result Os
os_cbk_sleep os = ok os

module _ (cfg : Config) where
  -- OS_BEGIN: the line to whose `case` the task jumps, or 0 for the start of the task.
  pub task_open : Os → Result ℕ
  task_open os = task_internal_state_get cfg os.running_tid os.tasks

  pub task_close : Os → Result Os
  task_close = os_end cfg

  pub task_wait : ℕ → ℕ → Os → Result Os
  task_wait line ticks = os_wait_ticks cfg line ticks 0

  pub task_wait_id : ℕ → ℕ → ℕ → Os → Result Os
  task_wait_id line id ticks = os_wait_ticks cfg line ticks id

  pub task_suspend : ℕ → ℕ → Os → Result Os
  task_suspend = suspend_task cfg

  pub task_resume : ℕ → ℕ → Os → Result Os
  task_resume = resume_task cfg

  pub event_wait : ℕ → ℕ → Os → Result Os
  event_wait line event = wait_single_event cfg line event 0 none

  pub event_wait_ex : ℕ → ℕ → Option (Os → Result Os) → Os → Result Os
  event_wait_ex line event cb = wait_single_event cfg line event 0 cb

  pub event_wait_timeout : ℕ → ℕ → ℕ → Os → Result Os
  event_wait_timeout line event timeout = wait_single_event cfg line event timeout none

  pub event_wait_timeout_ex : ℕ → ℕ → ℕ → Option (Os → Result Os) → Os → Result Os
  event_wait_timeout_ex line event timeout cb = wait_single_event cfg line event timeout cb

  pub event_get_timeout : Os → Result ℕ
  event_get_timeout os = os_task_timeout_get cfg os.running_tid os.tasks

  pub event_wait_multiple : ℕ → Bool → List ℕ → Os → Result Os
  event_wait_multiple = wait_multiple_events cfg

  pub event_signal : ℕ → ℕ → Os → Result Os
  event_signal = signal_event cfg

  pub sem_wait : ℕ → ℕ → Os → Result Os
  sem_wait = os_wait_sem cfg

  pub sem_signal : ℕ → ℕ → Os → Result Os
  sem_signal = os_signal_sem cfg

  pub sem_isr_signal : ℕ → Os → Result Os
  sem_isr_signal = signal_sem_no_schedule cfg

  pub msg_post : ℕ → ℕ → Msg → Os → Result (Bool × Msg × Os)
  msg_post line task_id msg = os_msg_q_post cfg line task_id msg 0 0 0

  pub msg_post_async : ℕ → ℕ → Msg → Os → Result (Bool × Msg × Os)
  msg_post_async line task_id msg = os_msg_q_post cfg line task_id msg 0 0 1

  pub msg_post_in : ℕ → ℕ → Msg → ℕ → Os → Result (Bool × Msg × Os)
  msg_post_in line task_id msg delay = os_msg_q_post cfg line task_id msg delay 0 0

  pub msg_post_every : ℕ → ℕ → Msg → ℕ → Os → Result (Bool × Msg × Os)
  msg_post_every line task_id msg period = os_msg_q_post cfg line task_id msg period period 0

  pub msg_receive : ℕ → ℕ → Msg → Os → Result (Bool × Msg × Os)
  msg_receive line task_id msg = os_msg_q_receive cfg line task_id msg 0 none

  pub msg_receive_ex : ℕ → ℕ → Msg → Option (Os → Result Os) → Os → Result (Bool × Msg × Os)
  msg_receive_ex line task_id msg cb = os_msg_q_receive cfg line task_id msg 0 cb
