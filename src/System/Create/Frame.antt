-- ===== src/System/Create/Frame.antt =====
-- os_task/src/os_task.c: `os_task_create` writes to no task of the table but the new one.
use mathlib.Core.Path.{subst}
use coco_os.Base.{inl, inr, ℕ, ◌+◌, ◌%◌, ◌<◌, ◌≡◌, refl, not, arith, sym, ◌∙◌}
use coco_os.Base.Tests.{ltb, ◌==◌, Bool-cases}
use coco_os.Base.Outcome.{ok, ◌>>=◌, Partly, Partly_bind, Partly_any, Partly_assert}
use coco_os.Config.{Config}
use coco_os.Event.{event_create}
use coco_os.Task.{Tcb, modify}
use coco_os.Task.Frame.{Licence, IsFrame, Each, modify-Each}
use coco_os.Task.Events.{os_task_clear_wait_queue}
use coco_os.Task.Events.Frame.{os_task_clear_wait_queue-Each}
use coco_os.MsgQueue.{no_queues}
use coco_os.System.{Os, on_tasks}
use coco_os.System.Frame.{Steps, Steps-trans, on_tasks-Steps}
use coco_os.System.Messages.{os_msg_q_create}
use coco_os.System.Create.{TaskSpec, new_task, check_prio, create_queue, os_task_create}

module _ (cfg : Config) (l : Licence) (R : ℕ → Tcb → Tcb → Type 0) (frame : IsFrame l R) where
  -- The queue that the task gets, if its number fits.
  abbrev Queued : Os → ℕ × Os → Type 0
  Queued os (q, os') = (os'.tasks ≡ os.tasks) × (os'.running_tid ≡ os.running_tid) × l.Fits 256 q

  create_queue-Queued :
      (a : TaskSpec) (tid : ℕ) (os : Os)
      → l.Fits 256 os.queues.n_queues
      → Partly (create_queue cfg a tid os) (Queued os)
  unfolding os_msg_q_create
  create_queue-Queued a tid os fits = elim (Bool-cases (ltb 0 a.pool_size)) [
    | inr none_there ↦ rw none_there (refl, refl, l.fits 256 255 (omega arith))
    | inl pool ↦ rw pool (elim (Bool-cases (no_queues cfg)) [
      | inl nothing ↦ rw nothing (refl, refl, l.fits 256 0 (omega arith))
      | inr there ↦ rw there (elim (Bool-cases (ltb os.queues.n_queues cfg.max_queues)) [
        | inr out ↦ rw out tt
        | inl room ↦ rw room (
            Partly_bind (event_create cfg os.events) _ _ (Queued os)
              (Partly_any (event_create cfg os.events)) (λ (event, es) u. (refl, refl, fits)))
      ])
    ])
  ]

  module _ (a : TaskSpec) (os : Os) (small : cfg.max_tasks < 255) where
    abbrev n : ℕ
    n = os.tasks.n_tasks

    -- The last steps, with the queue `q`.
    finish :
        (q : ℕ) (os₂ : Os)
        → R n
            (os₂.tasks.task_list n)
            (record (os₂.tasks.task_list n) { msg_q = q; data_ptr = a.data_ptr })
        → Steps R os os₂
        → n < cfg.max_tasks
        → Partly {A = ℕ × Os}
            (on_tasks (modify cfg n (λ t. record t { msg_q = q; data_ptr = a.data_ptr })) os₂
              >>= λ os₃. on_tasks (os_task_clear_wait_queue cfg n) os₃ >>= λ os₄.
                  ok (n, record os₄ { tasks = record (os₄.tasks) { n_tasks = (n + 1) % 256 } }))
            (λ r. Steps R os r.1)
    finish q os₂ attached h room =
        Partly_bind
          (on_tasks (modify cfg n (λ t. record t { msg_q = q; data_ptr = a.data_ptr })) os₂) _
          (Steps R os₂) (λ r. Steps R os r.1)
          (on_tasks-Steps cfg l R frame
            (modify cfg n (λ t. record t { msg_q = q; data_ptr = a.data_ptr })) os₂
            (modify-Each cfg l R frame n (λ t. record t { msg_q = q; data_ptr = a.data_ptr })
              os₂.tasks attached))
          (λ os₃ s₃.
            Partly_bind (on_tasks (os_task_clear_wait_queue cfg n) os₃) _ (Steps R os₃)
              (λ r. Steps R os r.1)
              (on_tasks-Steps cfg l R frame (os_task_clear_wait_queue cfg n) os₃
                (os_task_clear_wait_queue-Each cfg l R frame n os₃.tasks))
              (λ os₄ s₄.
                let k =
                  Steps-trans cfg l R frame os os₃ (Steps-trans cfg l R frame os os₂ h os₃ s₃) os₄
                    s₄ in
                ((omega arith, k.0.1), k.1)))

    pub os_task_create-Steps :
        ((t : Tcb) → R n t (new_task a n t))
        → ((t : Tcb) (q : ℕ) → l.Fits 256 q → R n t (record t { msg_q = q; data_ptr = a.data_ptr }))
        → l.Fits 256 os.queues.n_queues
        → Partly (os_task_create cfg a os) (λ r. Steps R os r.1)
    unfolding os_task_create
    os_task_create-Steps born attached fits = Partly_assert (os.running == 0) _ _ (λ h₀.
        Partly_assert (ltb n cfg.max_tasks) _ _ (λ h₁.
          Partly_assert (not (a.taskproc == 0)) _ _ (λ h₂.
            Partly_bind (check_prio cfg n a.prio os.tasks) _ _ (λ r. Steps R os r.1)
              (Partly_any (check_prio cfg n a.prio os.tasks))
              (λ u₁ u₂.
                Partly_bind (on_tasks (modify cfg n (new_task a n)) os) _
                  (λ os₁. Steps R os os₁ × (os₁.queues ≡ os.queues)) (λ r. Steps R os r.1)
                  (Partly_bind (modify cfg n (new_task a n) os.tasks)
                    (λ ts. ok (record os { tasks = ts })) (Each R os.tasks) _
                    (modify-Each cfg l R frame n (new_task a n) os.tasks
                      (born (os.tasks.task_list n)))
                    (λ ts s. ((s, refl), refl)))
                  (λ os₁ s₁.
                    Partly_bind (create_queue cfg a n os₁) _ (Queued os₁) (λ r. Steps R os r.1)
                      (create_queue-Queued a n os₁
                        (subst (λ qs. l.Fits 256 qs.n_queues) (sym s₁.1) fits))
                      (λ (q, os₂) s₂.
                        finish q os₂ (attached _ q s₂.2)
                          (subst (Each R os.tasks) (sym s₂.0) s₁.0.0, s₂.1 ∙ s₁.0.1)
                          (ground (arith, h₁))))))))
