-- ===== src/Kernel/Macros/Messages.antt =====
-- os_msgqueue/include/os_msgqueue.h: OS_MSG_Q_POST and OS_MSG_Q_RECEIVE.
-- Each is cut where the task yields inside the loop: `_try` is a round up to the yield or the end of
-- the macro, and `_resume` goes on from the yield. The first component says whether the task yielded.
pub mod Rounds
pub mod Safety
pub mod Frame
pub mod Owners
pub mod Delivery
pub mod Change
pub mod Waiting
pub mod Handover
pub mod Rendezvous
pub mod Exchange
use coco_os.Base.{ℕ, Bool, true, false}
use coco_os.Base.Tests.{◌==◌, if◌then◌else◌}
use coco_os.Base.Outcome.{Result, ok, ◌>>=◌}
use mathlib.Core.Option.{Option, none, some}
use coco_os.Config.{Config, no_msg_id}
use coco_os.Task.Fields.{
  os_task_set_wait_queue, os_task_set_change_event, os_task_get_change_event,
  os_task_set_msg_result, os_task_get_msg_result,
}
use coco_os.MsgQueue.{
  Msg, Status, undef, def, empty, full, received, posted, os_msg_q_find, os_msg_q_event_get,
  os_msg_post, os_msg_receive,
}
use coco_os.System.{Os, on_tasks}
use coco_os.System.Signals.{signal_from}
use coco_os.Kernel.Macros.{wait_single_event}

-- The value of an enumerator, which is kept in the task.
abbrev pub status_code : Status → ℕ
status_code undef = 0
status_code def = 1
status_code empty = 2
status_code full = 3
status_code received = 4
status_code posted = 5

module _ (cfg : Config) where
  -- `os_signal_event( event ); os_event_set_signaling_tid( event, os_get_running_tid() );`
  abbrev pub announce : ℕ → Os → Result Os
  announce event os = signal_from cfg os.running_tid event os

  -- `os_task_set_msg_result( … ); event_wait( event );`, with the callback of a receive between them
  abbrev pub wait_for_change : ℕ → Status → Option (Os → Result Os) → ℕ → Os → Result Os
  wait_for_change line s cb event os = do
    os₁ ← on_tasks (os_task_set_msg_result cfg os.running_tid (status_code s)) os
    os₂ ← elim cb [ none ↦ ok os₁ | some f ↦ f os₁ ]
    wait_single_event cfg line event 0 none os₂

  -- The queue of the task and its event are kept in the running task.
  abbrev pub note_queue : ℕ → Os → Result (ℕ × Os)
  note_queue task_id os = do
    let queue = os_msg_q_find cfg task_id os.queues
    os₁ ← on_tasks (os_task_set_wait_queue cfg os.running_tid queue) os
    let event = os_msg_q_event_get cfg queue os₁.queues
    os₂ ← on_tasks (os_task_set_change_event cfg os₁.running_tid event) os₁
    ok (event, os₂)

  pub post_try : ℕ → ℕ → Msg → ℕ → ℕ → ℕ → ℕ → Os → Result (Bool × Msg × Os)
  post_try line task_id msg delay period async event os = do
    (s, m, qs) ← os_msg_post cfg msg (os_msg_q_find cfg task_id os.queues) delay period os.queues
    let os₁ = record os { queues = qs }
    if status_code s == 3
        then (if async == 0
            then (wait_for_change line s none event os₁ >>= λ os₂. ok (true, m, os₂))
            else ok (false, m, os₁))
        else (if status_code s == 5
            then (announce event os₁ >>= λ os₂. ok (false, m, os₂))
            else ok (false, m, os₁))

  pub os_msg_q_post : ℕ → ℕ → Msg → ℕ → ℕ → ℕ → Os → Result (Bool × Msg × Os)
  os_msg_q_post line task_id msg delay period async os = do
    (event, os₁) ← note_queue task_id os
    post_try line task_id msg delay period async event os₁

  pub post_resume : ℕ → ℕ → Msg → ℕ → ℕ → ℕ → Os → Result (Bool × Msg × Os)
  post_resume line task_id msg delay period async os = do
    os_posted ← os_task_get_msg_result cfg os.running_tid os.tasks
    event ← os_task_get_change_event cfg os.running_tid os.tasks
    if os_posted == 3
        then post_try line task_id msg delay period async event os
        else (if os_posted == 5
            then (announce event os >>= λ os₁. ok (false, msg, os₁))
            else ok (false, msg, os))

  pub receive_try : ℕ → ℕ → Msg → ℕ → Option (Os → Result Os) → ℕ → Os → Result (Bool × Msg × Os)
  receive_try line task_id msg async cb event os = do
    (s, m, qs) ← os_msg_receive cfg msg (os_msg_q_find cfg task_id os.queues) os.queues
    let os₁ = record os { queues = qs }
    if status_code s == 2
        then (if async == 0
            then (wait_for_change line s cb event os₁ >>= λ os₂. ok (true, m, os₂))
            else ok (false, record m { signal = no_msg_id }, os₁))
        else (if status_code s == 4
            then (announce event os₁ >>= λ os₂. ok (false, m, os₂))
            else ok (false, m, os₁))

  pub os_msg_q_receive : ℕ → ℕ → Msg → ℕ → Option (Os → Result Os) → Os → Result (Bool × Msg × Os)
  os_msg_q_receive line task_id msg async cb os = do
    (event, os₁) ← note_queue task_id os
    receive_try line task_id msg async cb event os₁

  pub receive_resume : ℕ → ℕ → Msg → ℕ → Option (Os → Result Os) → Os → Result (Bool × Msg × Os)
  receive_resume line task_id msg async cb os = do
    os_received ← os_task_get_msg_result cfg os.running_tid os.tasks
    event ← os_task_get_change_event cfg os.running_tid os.tasks
    if os_received == 2
        then receive_try line task_id msg async cb event os
        else (if os_received == 4
            then (announce event os >>= λ os₁. ok (false, msg, os₁))
            else ok (false, msg, os))
