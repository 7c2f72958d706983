-- ===== src/Kernel/Clocks/Single.antt =====
-- os_kernel/src/os_kernel.c: `os_sub_nTick` next to so many calls of `os_sub_tick`.
use coco_os.Base.{
  ◌≤◌, ◌≢◌, true, inl, inr, Bool, ℕ, zero, suc, ◌-◌, ◌<◌, ◌≡◌, ◌||◌, false, refl, arith, ◌∙◌, sym,
}
use mathlib.Core.Path.{ap, subst}
use coco_os.Base.Tests.{ltb, leb, ◌==◌, Bool-cases, if◌then◌else◌}
use coco_os.Base.Outcome.{Returns_mono, Returns_bind, Returns, Result, ok, ◌>>=◌}
use coco_os.Config.{Config}
use coco_os.Task.{Tcb, is, ready, waiting_sem, waiting_time, waiting_event_timeout}
use coco_os.Task.Events.{clear_wait_queue}
use coco_os.System.{Os}
use coco_os.Kernel.{os_sub_n_tick, os_sub_tick}
use coco_os.Kernel.Clocks.{os_sub_n_tick_lem, os_sub_n_tick_lem, Ticked, OnlyTasks, ticked}

module _ (cfg : Config) (clock_id : ℕ) where
  abbrev delays : Tcb → Bool
  delays t = is t.state waiting_time || is t.state waiting_event_timeout

  -- A task whose time has run out.
  abbrev ended : Tcb → Tcb
  ended t =
      if is t.state waiting_event_timeout
      then record (clear_wait_queue cfg t) { time = 0; state = ready }
      else record t { time = 0; state = ready }

  module _ (n : ℕ) (t : Tcb) where
    ticked-other : delays t ≡ false → is t.state waiting_sem ≡ false → ticked cfg clock_id n t ≡ t
    ticked-other no_delay no_sem = rw (no_delay, no_sem) refl

    ticked-foreign :
        delays t ≡ true → (t.clock_id == clock_id) ≡ false → ticked cfg clock_id n t ≡ t
    ticked-foreign delay foreign = rw (delay, foreign) refl

    ticked-ended :
        delays t ≡ true
        → (t.clock_id == clock_id) ≡ true
        → leb t.time n ≡ true
        → ticked cfg clock_id n t ≡ ended t
    ticked-ended delay own over = rw (delay, own, over) refl

    ticked-later :
        delays t ≡ true
        → (t.clock_id == clock_id) ≡ true
        → leb t.time n ≡ false
        → ticked cfg clock_id n t ≡ record t { time = t.time - n }
    ticked-later delay own more = rw (delay, own, more) refl

    ended-ticked : ticked cfg clock_id n (ended t) ≡ ended t
    ended-ticked = elim (Bool-cases (is t.state waiting_event_timeout)) [
      | inl e ↦ rw e refl
      | inr e ↦ rw e refl
    ]

  -- One tick and then more of them, for a task that does not wait for a semaphore.
  ticked-suc :
      (n : ℕ) (t : Tcb)
      → 0 < n
      → is t.state waiting_sem ≡ false
      → ticked cfg clock_id n (ticked cfg clock_id 1 t) ≡ ticked cfg clock_id (suc n) t
  ticked-suc n t pos no_sem = elim (Bool-cases (delays t)) [
    | inr no_delay ↦
        let f = ticked cfg clock_id n in
        ap f (ticked-other 1 t no_delay no_sem)
        ∙ ticked-other n t no_delay no_sem
        ∙ sym (ticked-other (suc n) t no_delay no_sem)
    | inl delay ↦ elim (Bool-cases (t.clock_id == clock_id)) [
      | inr foreign ↦
          ap (ticked cfg clock_id n) (ticked-foreign 1 t delay foreign)
          ∙ ticked-foreign n t delay foreign
          ∙ sym (ticked-foreign (suc n) t delay foreign)
      | inl own ↦ elim (Bool-cases (leb t.time 1)) [
        | inl over ↦
            ap (ticked cfg clock_id n) (ticked-ended 1 t delay own over)
            ∙ ended-ticked n t
            ∙ sym (ticked-ended (suc n) t delay own (ground (arith, over)))
        | inr more ↦
            let u : Tcb = record t { time = t.time - 1 } in
            ap (ticked cfg clock_id n) (ticked-later 1 t delay own more)
            ∙ elim (Bool-cases (leb u.time n)) [
              | inl over ↦
                  ticked-ended n u delay own over
                  ∙ sym (ticked-ended (suc n) t delay own (ground (arith, over, more)))
              | inr still ↦
                  ticked-later n u delay own still
                  ∙ ap (λ k. record t { time = k }) (omega arith)
                  ∙ sym (ticked-later (suc n) t delay own (ground (arith, still, more)))
            ]
      ]
    ]
  ]

  ticked-stays :
      (t : Tcb)
      → is t.state waiting_sem ≡ false
      → is (ticked cfg clock_id 1 t).state waiting_sem ≡ false
  ticked-stays t no_sem = elim (Bool-cases (delays t)) [
    | inr no_delay ↦ rw (ticked-other 1 t no_delay no_sem) no_sem
    | inl delay ↦ elim (Bool-cases (t.clock_id == clock_id)) [
      | inr foreign ↦ rw (ticked-foreign 1 t delay foreign) no_sem
      | inl own ↦ elim (Bool-cases (leb t.time 1)) [
        | inl over ↦
            rw (ticked-ended 1 t delay own over)
              (elim (Bool-cases (is t.state waiting_event_timeout)) [
                | inl e ↦ rw e refl
                | inr e ↦ rw e refl
              ])
        | inr more ↦ rw (ticked-later 1 t delay own more) no_sem
      ]
    ]
  ]

  -- `n` calls of `os_sub_tick`
  pub sub_tick_times : ℕ → Os → Result Os
  sub_tick_times zero os = ok os
  sub_tick_times (suc n) os = os_sub_tick cfg clock_id os >>= sub_tick_times n

  -- As after one call with the count `n`, but for the tasks that wait for a semaphore.
  abbrev Counted : ℕ → Os → Os → Type 0
  Counted n os os' =
      OnlyTasks cfg os os'
      × (os'.tasks.n_tasks ≡ os.tasks.n_tasks)
      × (os'.tasks.last_running_task ≡ os.tasks.last_running_task)
      × ((j : ℕ)
          → is (os.tasks.task_list j).state waiting_sem ≡ false
          → os'.tasks.task_list j ≡ (
              if ltb j os.tasks.n_tasks
              then ticked cfg clock_id n (os.tasks.task_list j)
              else os.tasks.task_list j))

  -- The two states differ in no more than the tasks that wait for a semaphore in `os`.
  abbrev pub AgreeBut : Os → Os → Os → Type 0
  AgreeBut os a b =
      OnlyTasks cfg a b
      × (b.tasks.n_tasks ≡ a.tasks.n_tasks)
      × (b.tasks.last_running_task ≡ a.tasks.last_running_task)
      × ((j : ℕ)
          → is (os.tasks.task_list j).state waiting_sem ≡ false
          → b.tasks.task_list j ≡ a.tasks.task_list j)

  OnlyTasks-trans :
      (os os₁ os₂ : Os) → OnlyTasks cfg os os₁ → OnlyTasks cfg os₁ os₂ → OnlyTasks cfg os os₂
  OnlyTasks-trans os os₁ os₂ h k = (k.0 ∙ h.0, k.1 ∙ h.1, k.2 ∙ h.2, k.3 ∙ h.3, k.4 ∙ h.4)

  OnlyTasks-sides : (os a b : Os) → OnlyTasks cfg os a → OnlyTasks cfg os b → OnlyTasks cfg a b
  OnlyTasks-sides os a b h k =
      (k.0 ∙ sym h.0, k.1 ∙ sym h.1, k.2 ∙ sym h.2, k.3 ∙ sym h.3, k.4 ∙ sym h.4)

  Ticked-Counted : (n : ℕ) (os os' : Os) → Ticked cfg clock_id n os os' → Counted n os os'
  Ticked-Counted n os os' t = (t.1, t.0.0, t.0.1, λ j no_sem. t.0.2 j)

  then-case : {t : Tcb} (u v : Tcb) {b : Bool} → b ≡ true → t ≡ (if b then u else v) → t ≡ u
  then-case u v {b = true} e h = h
  then-case u v {b = false} e h = absurd (ground (arith, e))

  else-case : {t : Tcb} (u v : Tcb) {b : Bool} → b ≡ false → t ≡ (if b then u else v) → t ≡ v
  else-case u v {b = false} e h = h
  else-case u v {b = true} e h = absurd (ground (arith, e))

  module _ (nz : clock_id ≢ 0) where
    one_tick :
        (os : Os)
        → os.tasks.n_tasks ≤ cfg.max_tasks
        → Returns (os_sub_tick cfg clock_id os) (Ticked cfg clock_id 1 os)
    unfolding os_sub_tick os_sub_n_tick
    one_tick os le = os_sub_n_tick_lem cfg clock_id 1 os nz le

    Counted-suc :
        (n : ℕ) (os os₁ os₂ : Os)
        → 0 < n
        → Ticked cfg clock_id 1 os os₁
        → Counted n os₁ os₂
        → Counted (suc n) os os₂
    Counted-suc n os os₁ os₂ pos t c =
        let size : os₁.tasks.n_tasks ≡ os.tasks.n_tasks = t.0.0 in
        (
          OnlyTasks-trans os os₁ os₂ t.1 c.0,
          c.1 ∙ t.0.0,
          c.2 ∙ t.0.1,
          λ j no_sem. elim (Bool-cases (ltb j os.tasks.n_tasks)) [
            | inl inside ↦
                let e₁ = then-case _ _ inside (t.0.2 j) in
                let left : is (os₁.tasks.task_list j).state waiting_sem ≡ false =
                  subst (λ u. is (u.state) waiting_sem ≡ false) (sym e₁)
                    (ticked-stays (os.tasks.task_list j) no_sem) in
                let e₂ = then-case _ _ (ap (ltb j) size ∙ inside) (c.3 j left) in
                rw inside (
                  e₂
                  ∙ ap (ticked cfg clock_id n) e₁
                  ∙ ticked-suc n (os.tasks.task_list j) pos no_sem)
            | inr outside ↦
                let e₁ = else-case _ _ outside (t.0.2 j) in
                let left : is (os₁.tasks.task_list j).state waiting_sem ≡ false =
                  subst (λ u. is (u.state) waiting_sem ≡ false) (sym e₁) no_sem in
                rw outside (else-case _ _ (ap (ltb j) size ∙ outside) (c.3 j left) ∙ e₁)
          ],
        )

    sub_tick_times-Counted :
        (n : ℕ) (os : Os)
        → os.tasks.n_tasks ≤ cfg.max_tasks
        → Returns (sub_tick_times (suc n) os) (Counted (suc n) os)
    unfolding sub_tick_times
    sub_tick_times-Counted zero os le =
        Returns_bind (os_sub_tick cfg clock_id os) (sub_tick_times zero) _ _ (one_tick os le)
          (λ os₁ t. Ticked-Counted 1 os os₁ t)
    sub_tick_times-Counted (suc n) os le =
        Returns_bind (os_sub_tick cfg clock_id os) (sub_tick_times (suc n)) _ _ (one_tick os le)
          (λ os₁ t.
            Returns_mono (sub_tick_times (suc n) os₁) _ _
              (sub_tick_times-Counted n os₁ (omega (arith, t.0.0)))
              (λ os₂ c. Counted-suc (suc n) os os₁ os₂ (omega arith) t c))

    -- `os_sub_nTick` with a count of 1 or more, and so many calls of `os_sub_tick`, both return, and
    -- leave the same state but for the tasks that wait for a semaphore.
    pub os_sub_n_tick-sub_tick_times :
        (n : ℕ) (os : Os)
        → 0 < n
        → os.tasks.n_tasks ≤ cfg.max_tasks
        → Returns
            (os_sub_n_tick cfg clock_id n os)
            (λ a. Returns (sub_tick_times n os) (AgreeBut os a))
    os_sub_n_tick-sub_tick_times zero os pos le = absurd (omega arith)
    os_sub_n_tick-sub_tick_times (suc n) os pos le =
        Returns_mono (os_sub_n_tick cfg clock_id (suc n) os) _ _
          (os_sub_n_tick_lem cfg clock_id (suc n) os nz le)
          (λ a t.
            Returns_mono (sub_tick_times (suc n) os) _ _ (sub_tick_times-Counted n os le) (λ b c. (
              OnlyTasks-sides os a b t.1 c.0,
              c.1 ∙ sym t.0.0,
              c.2 ∙ sym t.0.1,
              λ j no_sem. c.3 j no_sem ∙ sym (t.0.2 j),
            )))
