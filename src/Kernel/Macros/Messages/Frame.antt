-- ===== src/Kernel/Macros/Messages/Frame.antt =====
-- os_msgqueue/include/os_msgqueue.h: what OS_MSG_Q_POST and OS_MSG_Q_RECEIVE write to the tasks.
use coco_os.Base.{◌∙◌, ℕ, ◌<◌, ◌≡◌, Bool, true, false, sym, refl, inl, inr, arith}
use mathlib.Core.Path.{subst}
use coco_os.Base.Tests.{◌==◌, if◌then◌else◌, Bool-cases}
use coco_os.Base.Outcome.{Result, ok, ◌>>=◌, Partly, Partly_bind, Partly_mono, Partly_any}
use mathlib.Core.Option.{Option, none, some}
use coco_os.Config.{Config, no_msg_id}
use coco_os.Task.{Tcb}
use coco_os.Task.Fields.{
  os_task_set_wait_queue, os_task_set_change_event, os_task_get_change_event,
  os_task_set_msg_result, os_task_get_msg_result,
}
use coco_os.Task.Frame.{
  Licence, IsFrame, Each, Each-trans, os_task_set_wait_queue-Each, os_task_set_change_event-Each,
  os_task_set_msg_result-Each, u32,
}
use coco_os.MsgQueue.{Msg, Status, os_msg_q_find, os_msg_q_event_get, os_msg_post, os_msg_receive}
use coco_os.System.{Os, on_tasks}
use coco_os.System.Frame.{Steps, Steps-refl, Steps-trans, on_tasks-Steps, IsQuiet}
use coco_os.System.Signals.Frame.{signal_from-Steps}
use coco_os.Kernel.Macros.Frame.{Writes, Writes-bind, wait_single_event-Writes}
use coco_os.Kernel.Macros.Messages.{
  status_code, announce, wait_for_change, note_queue, post_try, os_msg_q_post, post_resume,
  receive_try, os_msg_q_receive, receive_resume,
}

status_code-lt : (s : Status) → status_code s < 256
status_code-lt s = ground arith

-- The task's queue and its event have numbers that fit.
abbrev pub Numbered : Config → Licence → ℕ → Os → Type 0
Numbered cfg l task_id os =
    l.Fits 256 (os_msg_q_find cfg task_id os.queues)
    × l.Fits 256 (os_msg_q_event_get cfg (os_msg_q_find cfg task_id os.queues) os.queues)

abbrev pub Wrote : (ℕ → Tcb → Tcb → Type 0) → Os → Bool × Msg × Os → Type 0
Wrote R os (yielded, m, os') = Writes R os os'

module _ (cfg : Config) (l : Licence) (R : ℕ → Tcb → Tcb → Type 0) (frame : IsFrame l R)
    (line : ℕ) where
  called :
      (cb : Option (Os → Result Os)) (os : Os)
      → IsQuiet cfg l R frame cb
      → Partly (elim cb [ none ↦ ok os | some f ↦ f os ]) (Steps R os)
  called none os quiet = Steps-refl cfg l R frame os
  called (some f) os quiet = quiet os

  module _ (os : Os) (may : l.May os.running_tid) where
    wait_for_change-Writes :
        (s : Status) (cb : Option (Os → Result Os)) (event : ℕ)
        → IsQuiet cfg l R frame cb
        → Partly (wait_for_change cfg line s cb event os) (Writes R os)
    wait_for_change-Writes s cb event quiet =
        Writes-bind cfg l R frame line os
          (on_tasks (os_task_set_msg_result cfg os.running_tid (status_code s)) os) _
          (on_tasks-Steps cfg l R frame (os_task_set_msg_result cfg os.running_tid (status_code s))
            os
            (os_task_set_msg_result-Each cfg l R frame os.running_tid os.tasks (status_code s) may
              (l.fits 256 (status_code s) (status_code-lt s))))
          (λ os₁ s₁.
            Writes-bind cfg l R frame line os₁ (elim cb [ none ↦ ok os₁ | some f ↦ f os₁ ]) _
              (called cb os₁ quiet)
              (λ os₂ s₂.
                wait_single_event-Writes cfg l R frame line os₂
                  (subst l.May (sym (s₂.1 ∙ s₁.1)) may) event 0 none (l.fits u32 0 (omega arith))
                  tt))

    -- The end of a round.
    round-Wrote :
        (tries sync done : Bool) (m m' : Msg) (waits announces : Result Os)
        → Partly waits (Writes R os)
        → Partly announces (Steps R os)
        → Partly
            (if tries
              then (if sync then (waits >>= λ os₂. ok (true, m, os₂)) else ok (false, m', os))
              else (if done then (announces >>= λ os₂. ok (false, m, os₂)) else ok (false, m, os)))
            (Wrote R os)
    round-Wrote true true done m m' waits announces h₁ h₂ =
        Partly_bind waits _ (Writes R os) (Wrote R os) h₁ (λ os' k. k)
    round-Wrote true false done m m' waits announces h₁ h₂ = (Steps-refl cfg l R frame os).0
    round-Wrote false sync true m m' waits announces h₁ h₂ =
        Partly_bind announces _ (Steps R os) (Wrote R os) h₂ (λ os' k. k.0)
    round-Wrote false sync false m m' waits announces h₁ h₂ = (Steps-refl cfg l R frame os).0

  note_queue-Steps :
      (task_id : ℕ) (os : Os)
      → l.May os.running_tid
      → Numbered cfg l task_id os
      → Partly (note_queue cfg task_id os) (λ (event, os'). Steps R os os')
  note_queue-Steps task_id os may numbered =
      let queue = os_msg_q_find cfg task_id os.queues in
      Partly_bind
        (os_task_set_wait_queue cfg os.running_tid queue os.tasks >>= λ ts.
          ok (record os { tasks = ts }))
        _ (λ os₁. Steps R os os₁ × (os₁.queues ≡ os.queues)) _
        (Partly_bind (os_task_set_wait_queue cfg os.running_tid queue os.tasks) _ (Each R os.tasks)
          _ (os_task_set_wait_queue-Each cfg l R frame os.running_tid os.tasks queue may numbered.0)
          (λ ts s. ((s, refl), refl)))
        (λ os₁ s₁.
          let event = os_msg_q_event_get cfg queue os₁.queues in
          Partly_bind (on_tasks (os_task_set_change_event cfg os₁.running_tid event) os₁) _
            (Steps R os₁) _
            (on_tasks-Steps cfg l R frame (os_task_set_change_event cfg os₁.running_tid event) os₁ (
              os_task_set_change_event-Each cfg l R frame os₁.running_tid os₁.tasks event
                (subst l.May (sym s₁.0.1) may)
                (subst (λ qs. l.Fits 256 (os_msg_q_event_get cfg queue qs)) (sym s₁.1) numbered.1)))
            (λ os₂ s₂. Steps-trans cfg l R frame os os₁ s₁.0 os₂ s₂))

  noted-Wrote :
      (task_id : ℕ) (os : Os) (f : ℕ → Os → Result (Bool × Msg × Os))
      → l.May os.running_tid
      → Numbered cfg l task_id os
      → ((event : ℕ) (os₁ : Os) → l.May os₁.running_tid → Partly (f event os₁) (Wrote R os₁))
      → Partly (note_queue cfg task_id os >>= λ (event, os₁). f event os₁) (Wrote R os)
  noted-Wrote task_id os f may numbered h =
      Partly_bind (note_queue cfg task_id os) _ (λ (event, os'). Steps R os os') (Wrote R os)
        (note_queue-Steps task_id os may numbered)
        (λ (event, os₁) s.
          Partly_mono (f event os₁) (Wrote R os₁) (Wrote R os)
            (h event os₁ (subst l.May (sym s.1) may))
            (λ (y, m, os₂) w. Each-trans cfg l R frame os.tasks os₁.tasks s.0 os₂.tasks w))

  module _ (task_id : ℕ) (msg : Msg) (os : Os) (may : l.May os.running_tid) where
    abbrev queue : ℕ
    queue = os_msg_q_find cfg task_id os.queues

    post_try-Wrote :
        (delay period async event : ℕ)
        → Partly (post_try cfg line task_id msg delay period async event os) (Wrote R os)
    unfolding post_try
    post_try-Wrote delay period async event =
        let post = os_msg_post cfg msg queue delay period os.queues in
        Partly_bind post _ _ (Wrote R os) (Partly_any post) (λ (s, m, qs) u.
          let os₁ : Os = record os { queues = qs } in
          round-Wrote os₁ may (status_code s == 3) (async == 0) (status_code s == 5) m m
            (wait_for_change cfg line s none event os₁) (announce cfg event os₁)
            (wait_for_change-Writes os₁ may s none event tt)
            (signal_from-Steps cfg l R frame os₁.running_tid event os₁))

    receive_try-Wrote :
        (async : ℕ) (cb : Option (Os → Result Os)) (event : ℕ)
        → IsQuiet cfg l R frame cb
        → Partly (receive_try cfg line task_id msg async cb event os) (Wrote R os)
    unfolding receive_try
    receive_try-Wrote async cb event quiet =
        let receive = os_msg_receive cfg msg queue os.queues in
        Partly_bind receive _ _ (Wrote R os) (Partly_any receive) (λ (s, m, qs) u.
          let os₁ : Os = record os { queues = qs } in
          round-Wrote os₁ may (status_code s == 2) (async == 0) (status_code s == 4) m
            (record m { signal = no_msg_id }) (wait_for_change cfg line s cb event os₁)
            (announce cfg event os₁) (wait_for_change-Writes os₁ may s cb event quiet)
            (signal_from-Steps cfg l R frame os₁.running_tid event os₁))

    -- A round after the yield reads what was kept.
    resumed-Wrote :
        (again wanted : ℕ) (try : ℕ → Result (Bool × Msg × Os))
        → ((event : ℕ) → Partly (try event) (Wrote R os))
        → Partly
            (os_task_get_msg_result cfg os.running_tid os.tasks >>= λ result.
              os_task_get_change_event cfg os.running_tid os.tasks >>= λ event.
              if result == again
              then try event
              else (if result == wanted
                  then (announce cfg event os >>= λ os₁. ok (false, msg, os₁))
                  else ok (false, msg, os)))
            (Wrote R os)
    resumed-Wrote again wanted try h =
        let r₁ = os_task_get_msg_result cfg os.running_tid os.tasks in
        let r₂ = os_task_get_change_event cfg os.running_tid os.tasks in
        Partly_bind r₁ _ _ (Wrote R os) (Partly_any r₁) (λ result u.
          Partly_bind r₂ _ _ (Wrote R os) (Partly_any r₂) (λ event u.
            elim (Bool-cases (result == again)) [
              | inl t ↦ rw t (h event)
              | inr f ↦ rw f (elim (Bool-cases (result == wanted)) [
                | inl d ↦ rw d (
                    Partly_bind (announce cfg event os) _ (Steps R os) (Wrote R os)
                      (signal_from-Steps cfg l R frame os.running_tid event os) (λ os₁ s. s.0))
                | inr n ↦ rw n (Steps-refl cfg l R frame os).0
              ])
            ]))

    pub post_resume-Wrote :
        (delay period async : ℕ)
        → Partly (post_resume cfg line task_id msg delay period async os) (Wrote R os)
    unfolding post_resume
    post_resume-Wrote delay period async =
        resumed-Wrote 3 5 (λ event. post_try cfg line task_id msg delay period async event os)
          (λ event. post_try-Wrote delay period async event)

    pub receive_resume-Wrote :
        (async : ℕ) (cb : Option (Os → Result Os))
        → IsQuiet cfg l R frame cb
        → Partly (receive_resume cfg line task_id msg async cb os) (Wrote R os)
    unfolding receive_resume
    receive_resume-Wrote async cb quiet =
        resumed-Wrote 2 4 (λ event. receive_try cfg line task_id msg async cb event os)
          (λ event. receive_try-Wrote async cb event quiet)

  pub os_msg_q_post-Wrote :
      (task_id : ℕ) (msg : Msg) (os : Os) (may : l.May os.running_tid) (delay period async : ℕ)
      → Numbered cfg l task_id os
      → Partly (os_msg_q_post cfg line task_id msg delay period async os) (Wrote R os)
  unfolding os_msg_q_post
  os_msg_q_post-Wrote task_id msg os may delay period async numbered =
      noted-Wrote task_id os
        (λ event os₁. post_try cfg line task_id msg delay period async event os₁) may numbered
        (λ event os₁ may₁. post_try-Wrote task_id msg os₁ may₁ delay period async event)

  pub os_msg_q_receive-Wrote :
      (task_id : ℕ) (msg : Msg) (os : Os) (may : l.May os.running_tid) (async : ℕ)
      (cb : Option (Os → Result Os))
      → Numbered cfg l task_id os
      → IsQuiet cfg l R frame cb
      → Partly (os_msg_q_receive cfg line task_id msg async cb os) (Wrote R os)
  unfolding os_msg_q_receive
  os_msg_q_receive-Wrote task_id msg os may async cb numbered quiet =
      noted-Wrote task_id os (λ event os₁. receive_try cfg line task_id msg async cb event os₁) may
        numbered (λ event os₁ may₁. receive_try-Wrote task_id msg os₁ may₁ async cb event quiet)
