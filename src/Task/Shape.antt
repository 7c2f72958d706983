-- ===== src/Task/Shape.antt =====
-- os_task/src/os_task.c: the operations that leave the number of tasks, and the queue and
-- the priority of each task, as they are, and access no task outside the table.
use coco_os.Base.{ℕ, ◌/◌, ◌≤◌, ◌<◌, ◌≡◌, refl, Bool, ◌∙◌, arith, inl, inr}
use coco_os.Base.Tests.{ltb, lt→ltb, ◌==◌, if◌then◌else◌, Bool-cases}
use coco_os.Base.Outcome.{
  Result, ◌>>=◌, Returns_mono, Safe, Safe_bind, Safe_mono, Safe_assert, Safe_forall,
  Safe_of_Returns,
}
use coco_os.Config.{Config, event_queue_size}
use coco_os.Task.{
  Tcb, Tasks, modify, task_at, os_task_kill, os_task_suspend, os_task_resume, os_task_wait_time_set,
  task_wait_sem_set, task_suspended_set,
}
use coco_os.Task.Fields.{
  os_task_internal_state_set, os_task_set_wait_queue, os_task_set_change_event,
  os_task_set_msg_result,
}
use coco_os.Base.{not}
use coco_os.Task.{waiting_event, waiting_event_timeout}
use coco_os.Task.Events.{
  add_event, os_task_clear_wait_queue, os_task_wait_event, os_task_signal_event,
}
use coco_os.Task.Events.Signal.{signaled, os_task_signal_event_lem}

abbrev pub SameShape : Tasks → Tasks → Type 0
SameShape ts ts' =
    (ts'.n_tasks ≡ ts.n_tasks)
    × ((j : ℕ) → (ts'.task_list j).msg_q ≡ (ts.task_list j).msg_q)
    × ((j : ℕ) → (ts'.task_list j).prio ≡ (ts.task_list j).prio)

pub SameShape-trans :
    (ts₁ ts₂ ts₃ : Tasks) → SameShape ts₁ ts₂ → SameShape ts₂ ts₃ → SameShape ts₁ ts₃
SameShape-trans ts₁ ts₂ ts₃ h k = (k.0 ∙ h.0, λ j. k.1 j ∙ h.1 j, λ j. k.2 j ∙ h.2 j)

-- The first call leaves the shape, and the second that of what the first left.
pub SameShape-bind :
    (ts : Tasks) (r : Result Tasks) (f : Tasks → Result Tasks)
    → Safe r (SameShape ts)
    → ((ts' : Tasks) → SameShape ts ts' → Safe (f ts') (SameShape ts'))
    → Safe (r >>= f) (SameShape ts)
SameShape-bind ts r f h k =
    Safe_bind r f (SameShape ts) _ h
      (λ ts' s. Safe_mono (f ts') _ _ (k ts' s) (λ ts₂ s₂. SameShape-trans ts ts' ts₂ s s₂))

-- The same, at one task.
abbrev pub SameAt : Tasks → ℕ → Tasks → Type 0
SameAt ts j ts' =
    (ts'.n_tasks ≡ ts.n_tasks)
    × ((ts'.task_list j).msg_q ≡ (ts.task_list j).msg_q)
    × ((ts'.task_list j).prio ≡ (ts.task_list j).prio)

pub SameShape-of_each :
    (r : Result Tasks) (ts : Tasks) → ((j : ℕ) → Safe r (SameAt ts j)) → Safe r (SameShape ts)
SameShape-of_each r ts h =
    Safe_mono r (λ ts'. (j : ℕ) → SameAt ts j ts') (SameShape ts) (Safe_forall r (SameAt ts) h)
      (λ ts' all. ((all 0).0, λ j. (all j).1, λ j. (all j).2))

module _ (cfg : Config) (tid : ℕ) (ts : Tasks) where
  modify-SameShape :
      (f : Tcb → Tcb)
      → tid < cfg.max_tasks
      → ((t : Tcb) → ((f t).msg_q ≡ t.msg_q) × ((f t).prio ≡ t.prio))
      → Safe (modify cfg tid f ts) (SameShape ts)
  unfolding modify
  modify-SameShape f small keeps = rw (lt→ltb _ _ small) (
    refl,
    λ j. ground (arith, (keeps (ts.task_list tid)).0),
    λ j. ground (arith, (keeps (ts.task_list tid)).1),
  )

  -- The setters of one field check no more than the bounds of the table.
  module _ (small : tid < cfg.max_tasks) where
    pub os_task_internal_state_set-SameShape :
        (line : ℕ) → Safe (os_task_internal_state_set cfg tid line ts) (SameShape ts)
    unfolding os_task_internal_state_set modify
    os_task_internal_state_set-SameShape line = SameShape-of_each _ ts (λ j. ground arith)

    pub os_task_set_wait_queue-SameShape :
        (queue : ℕ) → Safe (os_task_set_wait_queue cfg tid queue ts) (SameShape ts)
    unfolding os_task_set_wait_queue modify
    os_task_set_wait_queue-SameShape queue = SameShape-of_each _ ts (λ j. ground arith)

    pub os_task_set_change_event-SameShape :
        (event : ℕ) → Safe (os_task_set_change_event cfg tid event ts) (SameShape ts)
    unfolding os_task_set_change_event modify
    os_task_set_change_event-SameShape event = SameShape-of_each _ ts (λ j. ground arith)

    pub os_task_set_msg_result-SameShape :
        (result : ℕ) → Safe (os_task_set_msg_result cfg tid result ts) (SameShape ts)
    unfolding os_task_set_msg_result modify
    os_task_set_msg_result-SameShape result = SameShape-of_each _ ts (λ j. ground arith)

    pub os_task_clear_wait_queue-SameShape :
        Safe (os_task_clear_wait_queue cfg tid ts) (SameShape ts)
    unfolding os_task_clear_wait_queue modify
    os_task_clear_wait_queue-SameShape = SameShape-of_each _ ts (λ j. ground arith)

  -- The operations that first assert that the task is in the table.
  module _ (le : ts.n_tasks ≤ cfg.max_tasks) where
    pub os_task_kill-SameShape : Safe (os_task_kill cfg tid ts) (SameShape ts)
    unfolding os_task_kill modify
    os_task_kill-SameShape = SameShape-of_each _ ts (λ j. ground arith)

    pub task_wait_sem_set-SameShape :
        (sem : ℕ) → Safe (task_wait_sem_set cfg tid sem ts) (SameShape ts)
    unfolding task_wait_sem_set modify
    task_wait_sem_set-SameShape sem = SameShape-of_each _ ts (λ j. ground arith)

    pub os_task_suspend-SameShape : Safe (os_task_suspend cfg tid ts) (SameShape ts)
    unfolding os_task_suspend task_at modify task_suspended_set
    os_task_suspend-SameShape = SameShape-of_each _ ts (λ j. ground arith)

    pub os_task_resume-SameShape : Safe (os_task_resume cfg tid ts) (SameShape ts)
    unfolding os_task_resume task_at modify
    os_task_resume-SameShape = SameShape-of_each _ ts (λ j. ground arith)

    pub os_task_wait_time_set-SameShape :
        (id time : ℕ) → Safe (os_task_wait_time_set cfg tid id time ts) (SameShape ts)
    unfolding os_task_wait_time_set modify
    os_task_wait_time_set-SameShape id time = SameShape-of_each _ ts (λ j. ground arith)

    pub os_task_signal_event-SameShape :
        (event : ℕ)
        → event / 8 < event_queue_size cfg
        → Safe (os_task_signal_event cfg event ts) (SameShape ts)
    unfolding signaled
    os_task_signal_event-SameShape event fits =
        Safe_of_Returns (os_task_signal_event cfg event ts) _ (
          Returns_mono (os_task_signal_event cfg event ts) _ _
            (os_task_signal_event_lem cfg event fits ts le)
            (λ ts' h. (h.0, λ j. ground (arith, h.2 j), λ j. ground (arith, h.2 j))))

module _ (cfg : Config) (tid event timeout : ℕ) (single : Bool) (ts : Tasks) where
  park-SameShape :
      (ts : Tasks)
      → ts.n_tasks ≤ cfg.max_tasks
      → tid < cfg.max_tasks
      → Safe
          (if not (timeout == 0)
            then os_task_wait_time_set cfg tid 0 timeout ts
              >>= modify cfg tid (λ t. record t { state = waiting_event_timeout })
            else modify cfg tid (λ t. record t { state = waiting_event }) ts)
          (SameShape ts)
  park-SameShape ts le small = elim (Bool-cases (timeout == 0)) [
    | inl z ↦ rw z (modify-SameShape cfg tid ts _ small (λ t. (refl, refl)))
    | inr nz ↦ rw nz (
        SameShape-bind ts (os_task_wait_time_set cfg tid 0 timeout ts) _
          (os_task_wait_time_set-SameShape cfg tid ts le 0 timeout)
          (λ ts' s. modify-SameShape cfg tid ts' _ small (λ t. (refl, refl))))
  ]

  pub os_task_wait_event-SameShape :
      ts.n_tasks ≤ cfg.max_tasks
      → event / 8 < event_queue_size cfg
      → Safe (os_task_wait_event cfg tid event single timeout ts) (SameShape ts)
  unfolding os_task_wait_event
  os_task_wait_event-SameShape le fits = Safe_assert (ltb tid ts.n_tasks) _ _ (λ inside.
      let small : tid < cfg.max_tasks = ground arith in
      rw (lt→ltb _ _ fits) (
        SameShape-bind ts (modify cfg tid (add_event event) ts) _
          (modify-SameShape cfg tid ts (add_event event) small (λ t. (refl, refl)))
          (λ ts₁ s₁.
            SameShape-bind ts₁ (modify cfg tid (λ t. record t { wait_single_event = single }) ts₁) _
              (modify-SameShape cfg tid ts₁ (λ t. record t { wait_single_event = single }) small
                (λ t. (refl, refl)))
              (λ ts₂ s₂. park-SameShape ts₂ (omega (arith, s₁.0, s₂.0)) small))))
