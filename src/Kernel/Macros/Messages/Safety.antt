-- ===== src/Kernel/Macros/Messages/Safety.antt =====
-- os_msgqueue/include/os_msgqueue.h: OS_MSG_Q_POST and OS_MSG_Q_RECEIVE keep the state of the kernel
-- well-formed.
use coco_os.Base.{ℕ, ◌<◌, Bool, false, arith, inl, inr}
use coco_os.Base.Tests.{◌==◌, if◌then◌else◌, lt→ltb, Bool-cases}
use coco_os.Base.Outcome.{Result, ok, ◌>>=◌, Safe, Safe_bind, Safe_of_Returns}
use mathlib.Core.Option.{Option, none}
use coco_os.Config.{no_msg_id, Config, total_events}
use coco_os.Task.{task_at}
use coco_os.Task.Fields.{os_task_get_change_event, os_task_get_msg_result}
use coco_os.MsgQueue.{Msg, received, posted, os_msg_q_find, os_msg_post, os_msg_receive}
use coco_os.System.{Os}
use coco_os.System.Invariant.{IsSound, IsWell, Keeps, Keeps-refl}
use coco_os.System.Signals.Safety.{IsCalm, signal_from-Keeps}
use coco_os.System.Messages.Safety.{Transfers, os_msg_post-Keeps, os_msg_receive-Keeps}
use coco_os.Kernel.Macros.Safety.{Frees-of_Keeps}
use coco_os.Kernel.Macros.Messages.{
  status_code, announce, wait_for_change, post_try, os_msg_q_post, post_resume, receive_try,
  os_msg_q_receive, receive_resume,
}
use coco_os.Kernel.Macros.Messages.Rounds.{
  kept_event, Ends, IsNoted, wait_for_change-Frees, round-Ends, code_posted, code_received,
  noted-Ends,
}

module _ (cfg : Config) (sound : IsSound cfg) (line : ℕ) where
  module _ (task_id : ℕ) (msg : Msg) (os : Os) (w : IsWell cfg os)
      (runs : os.running_tid < os.tasks.n_tasks) where
    abbrev queue : ℕ
    queue = os_msg_q_find cfg task_id os.queues

    post_try-Ends :
        (delay period async event : ℕ)
        → IsNoted cfg sound line queue os event
        → Safe (post_try cfg line task_id msg delay period async event os) (Ends cfg sound line os)
    unfolding post_try
    post_try-Ends delay period async event noted =
        Safe_bind (os_msg_post cfg msg queue delay period os.queues) _
          (Transfers cfg sound queue posted os) (Ends cfg sound line os)
          (Safe_of_Returns (os_msg_post cfg msg queue delay period os.queues) _
            (os_msg_post-Keeps cfg sound msg queue delay period os w))
          (λ (s, m, qs) t.
            let os₁ = record os { queues = qs } in
            round-Ends cfg sound line os₁ (status_code s == 3) (async == 0) (status_code s == 5) m m
              (wait_for_change cfg line s none event os₁) (announce cfg event os₁) t.0.0
              (wait_for_change-Frees cfg sound line s none event os₁ t.0.0 runs tt)
              (λ e.
                signal_from-Keeps cfg sound os.running_tid event os₁ t.0.0
                  (noted (t.1 (code_posted s e)))))

    receive_try-Ends :
        (async : ℕ) (cb : Option (Os → Result Os)) (event : ℕ)
        → IsCalm cfg sound cb
        → IsNoted cfg sound line queue os event
        → Safe (receive_try cfg line task_id msg async cb event os) (Ends cfg sound line os)
    unfolding receive_try
    receive_try-Ends async cb event calm noted =
        Safe_bind (os_msg_receive cfg msg queue os.queues) _ (Transfers cfg sound queue received os)
          (Ends cfg sound line os)
          (Safe_of_Returns (os_msg_receive cfg msg queue os.queues) _
            (os_msg_receive-Keeps cfg sound msg queue os w))
          (λ (s, m, qs) t.
            let os₁ = record os { queues = qs } in
            round-Ends cfg sound line os₁ (status_code s == 2) (async == 0) (status_code s == 4) m
              (record m { signal = no_msg_id }) (wait_for_change cfg line s cb event os₁)
              (announce cfg event os₁) t.0.0
              (wait_for_change-Frees cfg sound line s cb event os₁ t.0.0 runs calm)
              (λ e.
                signal_from-Keeps cfg sound os.running_tid event os₁ t.0.0
                  (noted (t.1 (code_received s e)))))

    -- The task goes on from the yield: with what it keeps, and another round if it says so.
    resumed-Ends :
        (code_try code_done : ℕ) (again : ℕ → Result (Bool × Msg × Os))
        → kept_event os < total_events cfg
        → Safe (again (kept_event os)) (Ends cfg sound line os)
        → Safe
            (os_task_get_msg_result cfg os.running_tid os.tasks >>= λ result.
              os_task_get_change_event cfg os.running_tid os.tasks >>= λ event.
              if result == code_try
              then again event
              else if result == code_done
              then (announce cfg event os >>= λ os₁. ok (false, msg, os₁))
              else ok (false, msg, os))
            (Ends cfg sound line os)
    unfolding os_task_get_msg_result os_task_get_change_event task_at
    resumed-Ends code_try code_done again known h =
        let kept = (os.tasks.task_list os.running_tid).msg_result in
        rw (lt→ltb os.running_tid cfg.max_tasks (omega (arith, w.tasks_fit)))
          (elim (Bool-cases (kept == code_try)) [
            | inl t ↦ rw t h
            | inr other ↦ elim (Bool-cases (kept == code_done)) [
              | inr u ↦ rw (other, u) (Frees-of_Keeps cfg sound line os os (Keeps-refl cfg os w))
              | inl d ↦
                  rw (other, d)
                    (Safe_bind (announce cfg (kept_event os) os) _ (Keeps cfg os)
                      (Ends cfg sound line os)
                      (signal_from-Keeps cfg sound os.running_tid (kept_event os) os w known)
                      (Frees-of_Keeps cfg sound line os))
            ]
          ])

  module _ (task_id : ℕ) (msg : Msg) (os : Os) (w : IsWell cfg os)
      (runs : os.running_tid < os.tasks.n_tasks) where
    pub os_msg_q_post-Ends :
        (delay period async : ℕ)
        → Safe (os_msg_q_post cfg line task_id msg delay period async os) (Ends cfg sound line os)
    unfolding os_msg_q_post
    os_msg_q_post-Ends delay period async =
        noted-Ends cfg sound line task_id os (post_try cfg line task_id msg delay period async) w
          runs
          (λ event os₁ w₁ runs₁ noted.
            post_try-Ends task_id msg os₁ w₁ runs₁ delay period async event noted)

    pub os_msg_q_receive-Ends :
        (async : ℕ) (cb : Option (Os → Result Os))
        → IsCalm cfg sound cb
        → Safe (os_msg_q_receive cfg line task_id msg async cb os) (Ends cfg sound line os)
    unfolding os_msg_q_receive
    os_msg_q_receive-Ends async cb calm =
        noted-Ends cfg sound line task_id os (receive_try cfg line task_id msg async cb) w runs
          (λ event os₁ w₁ runs₁ noted.
            receive_try-Ends task_id msg os₁ w₁ runs₁ async cb event calm noted)

    pub post_resume-Ends :
        (delay period async : ℕ)
        → kept_event os < total_events cfg
        → Safe (post_resume cfg line task_id msg delay period async os) (Ends cfg sound line os)
    unfolding post_resume
    post_resume-Ends delay period async known =
        resumed-Ends task_id msg os w runs 3 5
          (λ event. post_try cfg line task_id msg delay period async event os) known
          (post_try-Ends task_id msg os w runs delay period async (kept_event os) (λ h. known))

    pub receive_resume-Ends :
        (async : ℕ) (cb : Option (Os → Result Os))
        → IsCalm cfg sound cb
        → kept_event os < total_events cfg
        → Safe (receive_resume cfg line task_id msg async cb os) (Ends cfg sound line os)
    unfolding receive_resume
    receive_resume-Ends async cb calm known =
        resumed-Ends task_id msg os w runs 2 4
          (λ event. receive_try cfg line task_id msg async cb event os) known
          (receive_try-Ends task_id msg os w runs async cb (kept_event os) calm (λ h. known))
