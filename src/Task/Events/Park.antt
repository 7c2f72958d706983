-- ===== src/Task/Events/Park.antt =====
-- os_task/src/os_task.c: what `os_task_wait_event` does to the task that waits.
use coco_os.Base.{ℕ, ◌<◌, ◌≤◌, ◌≡◌, refl, Bool, true, arith, inl, inr, ap, ◌∙◌}
use coco_os.Task.{waiting_time, waiting_event_timeout}
use coco_os.Base.Arrays.{update_self}
use coco_os.Base.{not}
use coco_os.Base.Tests.{lt→ltb, ◌==◌, if◌then◌else◌, Bool-cases}
use coco_os.Base.Outcome.{◌>>=◌, Returns, Returns_bind}
use coco_os.Config.{Config}
use coco_os.Task.{Tasks, Tcb, waiting_event, modify, os_task_wait_time_set}
use coco_os.Task.Events.{add_event, is_waiting_event, os_task_wait_event}
use coco_os.Task.Events.WaitAll.{Fits}

module _ (cfg : Config) (tid timeout : ℕ) (one : Bool) where
  -- The task `tid`, in a table of `n`.
  abbrev pub Holds : ℕ → Tcb → Tasks → Type 0
  Holds n t ts = (ts.n_tasks ≡ n) × (ts.task_list tid ≡ t)

  pub modify-Holds :
      (f : Tcb → Tcb) (n : ℕ) (t : Tcb) (ts : Tasks)
      → tid < cfg.max_tasks
      → Holds n t ts
      → Returns (modify cfg tid f ts) (Holds n (f t))
  unfolding modify
  modify-Holds f n t ts small (hn, ht) =
      rw (lt→ltb _ _ small) (hn, update_self ts.task_list tid (f (ts.task_list tid)) ∙ ap f ht)

  abbrev timed : Tcb → Tcb
  timed t = record t { clock_id = 0; time = timeout; state = waiting_time }

  time-Holds :
      (n : ℕ) (t : Tcb) (ts : Tasks)
      → tid < n
      → tid < cfg.max_tasks
      → 0 < timeout
      → Holds n t ts
      → Returns (os_task_wait_time_set cfg tid 0 timeout ts) (Holds n (timed t))
  unfolding os_task_wait_time_set
  time-Holds n t ts h small pos holds =
      rw (lt→ltb tid ts.n_tasks (omega (arith, holds.0)), lt→ltb _ _ pos)
        (Returns_bind (modify cfg tid (λ t. record t { clock_id = 0; time = timeout }) ts) _
          (Holds n (record t { clock_id = 0; time = timeout })) _
          (modify-Holds _ n t ts small holds)
          (λ ts₁ h₁. modify-Holds (λ t. record t { state = waiting_time }) n _ ts₁ small h₁))

  abbrev single : Tcb → Tcb
  single t = record t { wait_single_event = one }

  -- The task in its waiting state.
  abbrev parked : Tcb → Tcb
  parked t =
      if timeout == 0
      then record t { state = waiting_event }
      else record (timed t) { state = waiting_event_timeout }

  park-Holds :
      (n : ℕ) (t : Tcb) (ts : Tasks)
      → tid < n
      → tid < cfg.max_tasks
      → Holds n t ts
      → Returns
          (if not (timeout == 0)
            then os_task_wait_time_set cfg tid 0 timeout ts
              >>= modify cfg tid (λ t. record t { state = waiting_event_timeout })
            else modify cfg tid (λ t. record t { state = waiting_event }) ts)
          (Holds n (parked t))
  park-Holds n t ts h small holds = elim (Bool-cases (timeout == 0)) [
    | inl z ↦ rw z (modify-Holds (λ t. record t { state = waiting_event }) n t ts small holds)
    | inr nz ↦ rw nz (
        Returns_bind (os_task_wait_time_set cfg tid 0 timeout ts) _ (Holds n (timed t)) _
          (time-Holds n t ts h small (ground (arith, nz)) holds)
          (λ ts₁ h₁.
            modify-Holds (λ t. record t { state = waiting_event_timeout }) n (timed t) ts₁ small
              h₁))
  ]

  -- The task when the call returns.
  abbrev pub waiting : ℕ → Tcb → Tcb
  waiting e t = parked (single (add_event e t))

  pub wait_one :
      (e : ℕ) (ts : Tasks)
      → tid < ts.n_tasks
      → ts.n_tasks ≤ cfg.max_tasks
      → Fits cfg e
      → Returns
          (os_task_wait_event cfg tid e one timeout ts)
          (Holds ts.n_tasks (waiting e (ts.task_list tid)))
  unfolding os_task_wait_event
  wait_one e ts h le fits =
      let small : tid < cfg.max_tasks = omega arith in
      let t = ts.task_list tid in
      rw (lt→ltb _ _ h, lt→ltb _ _ fits)
        (Returns_bind (modify cfg tid (add_event e) ts) _ (Holds ts.n_tasks (add_event e t)) _
          (modify-Holds (add_event e) ts.n_tasks t ts small (refl, refl))
          (λ ts₁ h₁.
            Returns_bind (modify cfg tid single ts₁) _ (Holds ts.n_tasks (single (add_event e t))) _
              (modify-Holds single ts.n_tasks (add_event e t) ts₁ small h₁)
              (λ ts₂ h₂. park-Holds ts.n_tasks (single (add_event e t)) ts₂ h small h₂)))

  pub waiting_lem :
      (e : ℕ) (t : Tcb)
      → ((waiting e t).event_queue ≡ (add_event e t).event_queue)
        × (is_waiting_event (waiting e t).state ≡ true)
        × ((waiting e t).wait_single_event ≡ one)
  waiting_lem e t = elim (Bool-cases (timeout == 0)) [
    | inl z ↦ rw z (refl, refl, refl)
    | inr nz ↦ rw nz (refl, refl, refl)
  ]
