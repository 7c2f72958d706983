-- ===== src/Task/Frame.antt =====
-- os_task/src/os_task.c: what the operations write to the task control blocks, seen through any
-- relation between a task before and after.
use coco_os.Base.{ℕ, ◌+◌, ◌-◌, ◌%◌, ◌≤◌, ◌<◌, ◌≡◌, ◌≢◌, ◌⊎◌, Bool, not, ◌&&◌, arith, inl, inr}
use mathlib.Core.Path.{subst}
use mathlib.Core.Bool.{true, false}
use coco_os.Base.Tests.{ltb, ◌==◌, if◌then◌else◌, Bool-cases}
use coco_os.Base.Outcome.{Result, ok, os_assert, ◌>>=◌, ◌>>◌, Partly, Partly_bind, Partly_mono}
use coco_os.Config.{Config}
use coco_os.Task.{
  Tcb, Tasks, TaskState, is, is→eq, killed, ready, waiting_time, suspended, waiting_sem, task_at,
  modify, os_task_kill, task_ready_set, task_suspended_set, os_task_suspend, os_task_resume,
  os_task_wait_time_set, task_wait_sem_set,
}
use coco_os.Task.Fields.{
  os_task_internal_state_set, os_task_set_wait_queue, os_task_set_change_event,
  os_task_set_msg_result,
}

-- What the caller of the kernel is known to respect: `May j` lets task `j` set the fields that only
-- a running task sets, and `Fits m v` says that the argument `v` is below `m`, where that matters.
pub record Licence : Type 1 where
  pub May : ℕ → Type 0
  pub Fits : ℕ → ℕ → Type 0
  pub fits : (m v : ℕ) → v < m → Fits m v

abbrev pub u32 : ℕ
u32 = 4294967296

-- The relation of task `j` before with task `j` after holds of every write that the kernel makes.
pub record IsFrame (l : Licence) (R : ℕ → Tcb → Tcb → Type 0) : Type 0 where
  pub same : (j : ℕ) (t : Tcb) → R j t t
  pub after : (j : ℕ) (t u v : Tcb) → R j t u → R j u v → R j t v
  pub state : (j : ℕ) (t : Tcb) (s : TaskState) → R j t (record t { state = s })
  pub saved : (j : ℕ) (t : Tcb) (s : TaskState) → R j t (record t { saved_state = s })
  pub timer :
      (j : ℕ) (t : Tcb) (id time : ℕ)
      → l.Fits 256 id
      → l.Fits u32 time
      → R j t (record t { clock_id = id; time = time })
  pub expired : (j : ℕ) (t : Tcb) → R j t (record t { time = 0 })
  pub less_time : (j : ℕ) (t : Tcb) (n : ℕ) → R j t (record t { time = t.time - n })
  pub more_time : (j : ℕ) (t : Tcb) → R j t (record t { time = (t.time + 1) % u32 })
  pub sem :
      (j : ℕ) (t : Tcb) (sem : ℕ)
      → l.Fits 65536 sem
      → R j t (record t { time = 0; state = waiting_sem; semaphore = sem })
  pub single : (j : ℕ) (t : Tcb) (b : Bool) → R j t (record t { wait_single_event = b })
  pub bytes :
      (j : ℕ) (t : Tcb) (q : ℕ → ℕ)
      → ((i : ℕ) → ((k : ℕ) → t.event_queue k < 256) → q i < 256)
      → R j t (record t { event_queue = q })
  pub line :
      (j : ℕ) (t : Tcb) (v : ℕ) → l.May j → l.Fits 65536 v → R j t (record t { internal_state = v })
  pub wait_q : (j : ℕ) (t : Tcb) (v : ℕ) → l.May j → l.Fits 256 v → R j t (record t { wait_q = v })
  pub change :
      (j : ℕ) (t : Tcb) (v : ℕ) → l.May j → l.Fits 256 v → R j t (record t { msg_change_event = v })
  pub result :
      (j : ℕ) (t : Tcb) (v : ℕ) → l.May j → l.Fits 256 v → R j t (record t { msg_result = v })

-- Each task is so related to what it was, and none has left the table.
abbrev pub Each : (ℕ → Tcb → Tcb → Type 0) → Tasks → Tasks → Type 0
Each R ts ts' = (ts.n_tasks ≤ ts'.n_tasks) × ((j : ℕ) → R j (ts.task_list j) (ts'.task_list j))

module _ (cfg : Config) (l : Licence) (R : ℕ → Tcb → Tcb → Type 0) (frame : IsFrame l R) where
  pub Each-refl : (ts : Tasks) → Each R ts ts
  Each-refl ts = (omega arith, λ j. frame.same j (ts.task_list j))

  pub Each-trans : (ts ts' : Tasks) → Each R ts ts' → (ts₂ : Tasks) → Each R ts' ts₂ → Each R ts ts₂
  Each-trans ts ts' h ts₂ k = (omega (arith, h.0, k.0), λ j. frame.after j _ _ _ (h.1 j) (k.1 j))

  -- The rule for two calls.
  pub Each-bind :
      (ts : Tasks) (r : Result Tasks) (f : Tasks → Result Tasks)
      → Partly r (Each R ts)
      → ((ts' : Tasks) → Each R ts ts' → Partly (f ts') (Each R ts'))
      → Partly (r >>= f) (Each R ts)
  Each-bind ts r f h k =
      Partly_bind r f (Each R ts) (Each R ts) h
        (λ ts' s. Partly_mono (f ts') _ _ (k ts' s) (Each-trans ts ts' s))

  pub modify-Each :
      (i : ℕ) (f : Tcb → Tcb) (ts : Tasks)
      → R i (ts.task_list i) (f (ts.task_list i))
      → Partly (modify cfg i f ts) (Each R ts)
  unfolding modify
  modify-Each i f ts h = elim (Bool-cases (ltb i cfg.max_tasks)) [
    | inr out ↦ rw out tt
    | inl inside ↦ rw inside (
      omega arith,
      λ j. elim (Bool-cases (i == j)) [
        | inl e ↦
            let e' : i ≡ j = ground (arith, e) in
            rw e (subst (λ j. R j (ts.task_list j) (f (ts.task_list i))) e' h)
        | inr ne ↦ rw ne (frame.same j (ts.task_list j))
      ],
    )
  ]

  -- Behind an assertion, and behind a read of the table.
  pub asserted-Each :
      (b : Bool) (r : Result Tasks) (ts : Tasks)
      → Partly r (Each R ts)
      → Partly (os_assert b >> r) (Each R ts)
  asserted-Each true r ts h = h
  asserted-Each false r ts h = tt

  pub read-Each :
      (i : ℕ) (ts : Tasks) (k : Tcb → Result Tasks)
      → Partly (k (ts.task_list i)) (Each R ts)
      → Partly (task_at cfg i ts >>= k) (Each R ts)
  unfolding task_at
  read-Each i ts k h = elim (Bool-cases (ltb i cfg.max_tasks)) [
    | inr out ↦ rw out tt
    | inl inside ↦ rw inside h
  ]

  module _ (tid : ℕ) (ts : Tasks) where
    abbrev t : Tcb
    t = ts.task_list tid

    set_state :
        (s : TaskState) (ts : Tasks)
        → Partly (modify cfg tid (λ t. record t { state = s }) ts) (Each R ts)
    set_state s ts =
        modify-Each tid (λ t. record t { state = s }) ts (frame.state tid (ts.task_list tid) s)

    pub task_ready_set-Each : Partly (task_ready_set cfg tid ts) (Each R ts)
    unfolding task_ready_set
    task_ready_set-Each =
        asserted-Each (ltb tid ts.n_tasks) (modify cfg tid (λ t. record t { state = ready }) ts) ts
          (set_state ready ts)

    pub os_task_kill-Each : Partly (os_task_kill cfg tid ts) (Each R ts)
    unfolding os_task_kill
    os_task_kill-Each =
        asserted-Each (ltb tid ts.n_tasks) (modify cfg tid (λ t. record t { state = killed }) ts) ts
          (set_state killed ts)

    pub os_task_resume-Each : Partly (os_task_resume cfg tid ts) (Each R ts)
    unfolding os_task_resume
    os_task_resume-Each =
        let back = λ (u : Tcb).
          if is u.state suspended
          then modify cfg tid (λ t. record t { state = t.saved_state }) ts
          else ok ts in
        asserted-Each (ltb tid ts.n_tasks) (task_at cfg tid ts >>= back) ts (
          read-Each tid ts back (elim (Bool-cases (is t.state suspended)) [
            | inl h ↦ rw h (
                modify-Each tid (λ t. record t { state = t.saved_state }) ts
                  (frame.state tid t t.saved_state))
            | inr h ↦ rw h (Each-refl ts)
          ]))

    pub os_task_wait_time_set-Each :
        (id time : ℕ)
        → l.Fits 256 id
        → l.Fits u32 time
        → Partly (os_task_wait_time_set cfg tid id time ts) (Each R ts)
    unfolding os_task_wait_time_set
    os_task_wait_time_set-Each id time h k =
        let set = modify cfg tid (λ t. record t { clock_id = id; time = time }) ts in
        let wait = modify cfg tid (λ t. record t { state = waiting_time }) in
        asserted-Each (ltb tid ts.n_tasks) (os_assert (ltb 0 time) >> (set >>= wait)) ts (
          asserted-Each (ltb 0 time) (set >>= wait) ts (
            Each-bind ts set wait
              (modify-Each tid (λ t. record t { clock_id = id; time = time }) ts
                (frame.timer tid t id time h k))
              (λ ts₁ s. set_state waiting_time ts₁)))

    pub task_wait_sem_set-Each :
        (sem : ℕ) → l.Fits 65536 sem → Partly (task_wait_sem_set cfg tid sem ts) (Each R ts)
    unfolding task_wait_sem_set
    task_wait_sem_set-Each sem h =
        let f = λ (t : Tcb). record t { time = 0; state = waiting_sem; semaphore = sem } in
        asserted-Each (ltb tid ts.n_tasks) (modify cfg tid f ts) ts
          (modify-Each tid f ts (frame.sem tid t sem h))

    -- What only a running task sets.
    pub os_task_internal_state_set-Each :
        (line : ℕ)
        → l.May tid
        → l.Fits 65536 line
        → Partly (os_task_internal_state_set cfg tid line ts) (Each R ts)
    unfolding os_task_internal_state_set
    os_task_internal_state_set-Each line m h =
        modify-Each tid (λ t. record t { internal_state = line }) ts (frame.line tid t line m h)

    module _ (v : ℕ) (may : l.May tid) (small : l.Fits 256 v) where
      pub os_task_set_wait_queue-Each : Partly (os_task_set_wait_queue cfg tid v ts) (Each R ts)
      unfolding os_task_set_wait_queue
      os_task_set_wait_queue-Each =
          modify-Each tid (λ t. record t { wait_q = v }) ts (frame.wait_q tid t v may small)

      pub os_task_set_change_event-Each : Partly (os_task_set_change_event cfg tid v ts) (Each R ts)
      unfolding os_task_set_change_event
      os_task_set_change_event-Each =
          modify-Each tid (λ t. record t { msg_change_event = v }) ts
            (frame.change tid t v may small)

      pub os_task_set_msg_result-Each : Partly (os_task_set_msg_result cfg tid v ts) (Each R ts)
      unfolding os_task_set_msg_result
      os_task_set_msg_result-Each =
          modify-Each tid (λ t. record t { msg_result = v }) ts (frame.result tid t v may small)

    abbrev restart : Tcb → Tcb
    restart t = record t { saved_state = ready; internal_state = 0 }

    -- A task that waits for a semaphore starts again when it is resumed.
    restart-R : l.May tid → R tid t (restart t)
    restart-R m =
        frame.after tid t (record t { saved_state = ready }) (restart t) (frame.saved tid t ready)
          (frame.line tid (record t { saved_state = ready }) 0 m (l.fits 65536 0 (omega arith)))

    stop-R :
        (l.May tid) ⊎ (t.state ≢ waiting_sem)
        → Partly
            (if is t.state waiting_sem
              then modify cfg tid restart ts
              else modify cfg tid (λ t. record t { saved_state = t.state }) ts)
            (Each R ts)
    stop-R may = elim (Bool-cases (is t.state waiting_sem)) [
      | inr other ↦
          rw other (
            modify-Each tid (λ t. record t { saved_state = t.state }) ts
              (frame.saved tid t t.state))
      | inl sem ↦ rw sem (elim may [
        | inl m ↦ modify-Each tid restart ts (restart-R m)
        | inr never ↦ absurd (never (is→eq t.state waiting_sem sem))
      ])
    ]

    pub os_task_suspend-Each :
        (l.May tid) ⊎ (t.state ≢ waiting_sem) → Partly (os_task_suspend cfg tid ts) (Each R ts)
    unfolding os_task_suspend task_suspended_set
    os_task_suspend-Each may =
        let halted = λ (u : Tcb).
          if not (is u.state killed) && not (is u.state suspended)
          then (if is u.state waiting_sem
              then modify cfg tid restart ts
              else modify cfg tid (λ t. record t { saved_state = t.state }) ts)
            >>= task_suspended_set cfg tid
          else ok ts in
        asserted-Each (ltb tid ts.n_tasks) (task_at cfg tid ts >>= halted) ts (
          read-Each tid ts halted
            (elim (Bool-cases (not (is t.state killed) && not (is t.state suspended))) [
              | inr h ↦ rw h (Each-refl ts)
              | inl h ↦ rw h (
                  Each-bind ts
                    (if is t.state waiting_sem
                      then modify cfg tid restart ts
                      else modify cfg tid (λ t. record t { saved_state = t.state }) ts)
                    (task_suspended_set cfg tid) (stop-R may) (λ ts₁ s. set_state suspended ts₁))
            ]))
