-- ===== src/Kernel/Macros/Messages/Rounds.antt =====
-- os_msgqueue/include/os_msgqueue.h: the parts of a round of OS_MSG_Q_POST and OS_MSG_Q_RECEIVE, how
-- it begins, waits and ends, keep the state of the kernel well-formed.
use coco_os.Base.{ℕ, ◌<◌, ◌≡◌, refl, Bool, true, false, arith}
use mathlib.Core.Path.{subst, sym, ◌∙◌}
use coco_os.Base.Tests.{leb, ◌==◌, if◌then◌else◌}
use coco_os.Base.Outcome.{Result, ok, ◌>>=◌, Safe, Safe_bind, Safe_mono}
use mathlib.Core.Option.{Option, none, some}
use coco_os.Config.{Config, total_events}
use coco_os.Task.Fields.{os_task_set_wait_queue, os_task_set_change_event, os_task_set_msg_result}
use coco_os.Task.Shape.{
  os_task_set_wait_queue-SameShape, os_task_set_change_event-SameShape,
  os_task_set_msg_result-SameShape,
}
use coco_os.MsgQueue.{
  Msg, Status, undef, def, empty, full, received, posted, os_msg_q_find, os_msg_q_event_get,
}
use coco_os.System.{Os, on_tasks}
use coco_os.System.Invariant.{
  on_tasks-queues, IsSound, IsWell, Keeps, Keeps-refl, Keeps-trans, on_tasks-Keeps,
}
use coco_os.System.Signals.Safety.{IsCalm}
use coco_os.Kernel.Macros.Safety.{
  Frees, Frees-after, Frees-bind, Frees-of_Keeps, wait_single_event-Frees,
}
use coco_os.Kernel.Macros.Messages.{status_code, wait_for_change, note_queue}

-- The event that the running task keeps.
abbrev pub kept_event : Os → ℕ
kept_event os = (os.tasks.task_list os.running_tid).msg_change_event

pub code_posted : (s : Status) → (status_code s == 5) ≡ true → s ≡ posted
code_posted undef e = absurd (ground (arith, e))
code_posted def e = absurd (ground (arith, e))
code_posted empty e = absurd (ground (arith, e))
code_posted full e = absurd (ground (arith, e))
code_posted received e = absurd (ground (arith, e))
code_posted posted e = refl

pub code_received : (s : Status) → (status_code s == 4) ≡ true → s ≡ received
code_received undef e = absurd (ground (arith, e))
code_received def e = absurd (ground (arith, e))
code_received empty e = absurd (ground (arith, e))
code_received full e = absurd (ground (arith, e))
code_received received e = refl
code_received posted e = absurd (ground (arith, e))

module _ (cfg : Config) (sound : IsSound cfg) (line : ℕ) where
  -- The macro leaves the state well-formed, whether the task has yielded or not.
  abbrev pub Ends : Os → Bool × Msg × Os → Type 0
  Ends os (yielded, m, os') = Frees cfg sound line os os'

  -- The event that a task keeps for the queue at hand: that of a queue, if there is the queue.
  abbrev pub IsNoted : ℕ → Os → ℕ → Type 0
  IsNoted queue os event = queue < os.queues.n_queues → event < total_events cfg

  event_get_lem :
      (queue : ℕ) (os : Os)
      → IsWell cfg os
      → IsNoted queue os (os_msg_q_event_get cfg queue os.queues)
  unfolding os_msg_q_event_get
  event_get_lem queue os w h =
      let there : (cfg.max_queues == 0) ≡ false = ground (arith, w.queues_fit) in
      let known : leb os.queues.n_queues queue ≡ false = ground arith in
      rw (there, known) (omega (arith, w.known queue h, w.events_fit))

  called :
      (cb : Option (Os → Result Os)) (os : Os)
      → IsCalm cfg sound cb
      → IsWell cfg os
      → Safe (elim cb [ none ↦ ok os | some f ↦ f os ]) (Keeps cfg os)
  called none os calm w = Keeps-refl cfg os w
  called (some f) os calm w = calm os w

  pub wait_for_change-Frees :
      (s : Status) (cb : Option (Os → Result Os)) (event : ℕ) (os : Os)
      → IsWell cfg os
      → os.running_tid < os.tasks.n_tasks
      → IsCalm cfg sound cb
      → Safe (wait_for_change cfg line s cb event os) (Frees cfg sound line os)
  wait_for_change-Frees s cb event os w runs calm =
      Frees-bind cfg sound line os
        (on_tasks (os_task_set_msg_result cfg os.running_tid (status_code s)) os) _
        (on_tasks-Keeps cfg (os_task_set_msg_result cfg os.running_tid (status_code s)) os w (
          os_task_set_msg_result-SameShape cfg os.running_tid os.tasks (omega (arith, w.tasks_fit))
            (status_code s)))
        (λ os₁ k₁.
          Frees-bind cfg sound line os₁ (elim cb [ none ↦ ok os₁ | some f ↦ f os₁ ]) _
            (called cb os₁ calm k₁.0)
            (λ os₂ k₂.
              wait_single_event-Frees cfg sound line os₂ k₂.0
                (omega (arith, k₁.1.0, k₁.1.1, k₂.1.0, k₂.1.1)) event 0 none tt))

  abbrev Notes : ℕ → Os → ℕ × Os → Type 0
  Notes task_id os (event, os') =
      Keeps cfg os os'
      × IsNoted (os_msg_q_find cfg task_id os.queues) os event
      × (os'.queues ≡ os.queues)

  note_queue-Notes :
      (task_id : ℕ) (os : Os)
      → IsWell cfg os
      → os.running_tid < os.tasks.n_tasks
      → Safe (note_queue cfg task_id os) (Notes task_id os)
  note_queue-Notes task_id os w runs =
      let queue = os_msg_q_find cfg task_id os.queues in
      let small : os.running_tid < cfg.max_tasks = omega (arith, w.tasks_fit) in
      Safe_bind (on_tasks (os_task_set_wait_queue cfg os.running_tid queue) os) _
        (λ os₁. Keeps cfg os os₁ × (os₁.queues ≡ os.queues)) (Notes task_id os)
        (on_tasks-queues _ os _ (
          on_tasks-Keeps cfg (os_task_set_wait_queue cfg os.running_tid queue) os w
            (os_task_set_wait_queue-SameShape cfg os.running_tid os.tasks small queue)))
        (λ os₁ k₁.
          let event = os_msg_q_event_get cfg queue os₁.queues in
          Safe_bind (on_tasks (os_task_set_change_event cfg os₁.running_tid event) os₁) _
            (λ os₂. Keeps cfg os₁ os₂ × (os₂.queues ≡ os₁.queues)) (Notes task_id os)
            (on_tasks-queues _ os₁ _ (
              on_tasks-Keeps cfg (os_task_set_change_event cfg os₁.running_tid event) os₁ k₁.0.0 (
                os_task_set_change_event-SameShape cfg os₁.running_tid os₁.tasks
                  (omega (arith, k₁.0.1.0)) event)))
            (λ os₂ k₂. (
              Keeps-trans cfg os os₁ k₁.0 os₂ k₂.0,
              subst (λ qs. IsNoted queue os (os_msg_q_event_get cfg queue qs)) (sym k₁.1)
                  (event_get_lem queue os w),
              k₂.1 ∙ k₁.1,
            )))

  -- The end of a round: the task waits, or gives up; or the event is announced, or nothing is left.
  pub round-Ends :
      (os : Os) (tries sync done : Bool) (m m' : Msg) (waits announces : Result Os)
      → IsWell cfg os
      → Safe waits (Frees cfg sound line os)
      → (done ≡ true → Safe announces (Keeps cfg os))
      → Safe
          (if tries
            then (if sync then (waits >>= λ os₂. ok (true, m, os₂)) else ok (false, m', os))
            else (if done then (announces >>= λ os₂. ok (false, m, os₂)) else ok (false, m, os)))
          (Ends os)
  round-Ends os true true done m m' waits announces w h₁ h₂ =
      Safe_bind waits _ (Frees cfg sound line os) (Ends os) h₁ (λ os' k. k)
  round-Ends os true false done m m' waits announces w h₁ h₂ =
      Frees-of_Keeps cfg sound line os os (Keeps-refl cfg os w)
  round-Ends os false sync true m m' waits announces w h₁ h₂ =
      Safe_bind announces _ (Keeps cfg os) (Ends os) (h₂ refl) (Frees-of_Keeps cfg sound line os)
  round-Ends os false sync false m m' waits announces w h₁ h₂ =
      Frees-of_Keeps cfg sound line os os (Keeps-refl cfg os w)

  -- What ends well after a first call that kept the state ends well.
  Ends-after : (os os₁ : Os) → Keeps cfg os os₁ → (r : Bool × Msg × Os) → Ends os₁ r → Ends os r
  Ends-after os os₁ k (yielded, m, os₂) h = Frees-after cfg sound line os os₁ k os₂ h

  -- A round after the queue was noted.
  pub noted-Ends :
      (task_id : ℕ) (os : Os) (f : ℕ → Os → Result (Bool × Msg × Os))
      → IsWell cfg os
      → os.running_tid < os.tasks.n_tasks
      → ((event : ℕ) (os₁ : Os)
          → IsWell cfg os₁
          → os₁.running_tid < os₁.tasks.n_tasks
          → IsNoted (os_msg_q_find cfg task_id os₁.queues) os₁ event
          → Safe (f event os₁) (Ends os₁))
      → Safe (note_queue cfg task_id os >>= λ (event, os₁). f event os₁) (Ends os)
  noted-Ends task_id os f w runs h =
      Safe_bind (note_queue cfg task_id os) _ (Notes task_id os) (Ends os)
        (note_queue-Notes task_id os w runs)
        (λ (event, os₁) n.
          Safe_mono (f event os₁) (Ends os₁) (Ends os)
            (h event os₁ n.0.0 (omega (arith, n.0.1.0, n.0.1.1)) (
              subst (λ qs. os_msg_q_find cfg task_id qs < qs.n_queues → event < total_events cfg)
                (sym n.2) n.1))
            (Ends-after os os₁ n.0))
