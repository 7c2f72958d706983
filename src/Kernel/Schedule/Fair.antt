-- ===== src/Kernel/Schedule/Fair.antt =====
-- os_kernel/src/os_kernel.c: in the round-robin build no ready task is passed over for ever.
use coco_os.Base.{
  ℕ, zero, suc, ◌+◌, ◌-◌, ◌≤◌, ◌<◌, ◌≡◌, ◌≢◌, refl, true, false, arith, inl, inr, ◌∙◌, sym,
}
use coco_os.Base.Tests.{leb, ◌==◌, if◌then◌else◌}
use mathlib.Core.Path.{subst, ap}
use native.Mathlib.Decide.{ℕ_discrete, dec_lt}
use coco_os.Base.Outcome.{Result, ok, Returns, Returns-elim}
use coco_os.Config.{Config, IsStatic, no_tid}
use coco_os.Task.{Tasks, ready}
use coco_os.Task.Schedule.{first_index}
use coco_os.Task.Schedule.RoundRobin.{wrapped}
use coco_os.System.{Os}
use coco_os.System.Invariant.{IsWell}
use coco_os.Kernel.{os_schedule}
use coco_os.Kernel.Schedule.{rounds, turned, os_schedule-IsFirstReady}

-- `j` is `d` places round the table behind the task that ran last.
abbrev IsBehind : Tasks → ℕ → ℕ → Type 0
IsBehind ts d j = (d < ts.n_tasks) × (j ≡ wrapped ts.n_tasks (first_index ts + d))

rounds-suc :
    (body : Os → Result Os) (k : ℕ) (os os₁ : Os)
    → body os ≡ ok os₁
    → rounds body (suc k) os ≡ rounds body k os₁
unfolding rounds
rounds-suc body k os os₁ e = rw e refl

module _ (cfg : Config) (run : ℕ → Os → Result Os) (os_cbk_sleep : Os → Result Os) (j : ℕ) where
  -- The procedure of the running task of the table, called in a well-formed state, returns and keeps
  -- the state well-formed; it leaves the count of the tasks and the one that ran last, and the task
  -- `j` stays ready.
  abbrev pub KeepsReady : Type 0
  KeepsReady =
      (os : Os)
      → IsWell cfg os
      → os.running_tid < os.tasks.n_tasks
      → (os.tasks.task_list j).state ≡ ready
      → Returns (run (os.tasks.task_list os.running_tid).taskproc os) (λ os'.
        IsWell cfg os'
        × (os'.tasks.n_tasks ≡ os.tasks.n_tasks)
        × (os'.tasks.last_running_task ≡ os.tasks.last_running_task)
        × ((os'.tasks.task_list j).state ≡ ready))

  -- The next schedule calls the procedure of the task.
  abbrev pub IsNext : Os → Type 0
  IsNext os =
      os_schedule cfg run os_cbk_sleep os
      ≡ run (os.tasks.task_list j).taskproc (turned cfg run os_cbk_sleep os j)

  abbrev pub ComesBy : ℕ → Os → Type 0
  ComesBy n os =
      (k : ℕ) × (k < n)
      × (s : Os) × (rounds (os_schedule cfg run os_cbk_sleep) k os ≡ ok s)
      × IsNext s

  module _ (st : IsStatic cfg) (turns : cfg.round_robin ≡ true) (keeps : KeepsReady) where
    found-le :
        (ts : Tasks) (d m : ℕ)
        → IsBehind ts d j
        → (ts.task_list j).state ≡ ready
        → ((e : ℕ) → e < m → (ts.task_list (wrapped ts.n_tasks (first_index ts + e))).state ≢ ready)
        → m ≤ d
    found-le ts d m b r none_before = elim (dec_lt d m) [
      | yes early ↦ absurd (none_before d early (subst (λ i. (ts.task_list i).state ≡ ready) b.1 r))
      | no late ↦ omega arith
    ]

    -- The places that are left when another task was scheduled.
    left :
        (ts ts' : Tasks) (d d' tid : ℕ)
        → ts.n_tasks < 255
        → IsBehind ts d j
        → d' < d
        → tid ≡ wrapped ts.n_tasks (first_index ts + d')
        → ts'.n_tasks ≡ ts.n_tasks
        → ts'.last_running_task ≡ tid
        → IsBehind ts' (d - d' - 1) j
    left ts ts' d d' tid few b lt e same last = ground (arith, same, last, e, b.0, b.1)

    -- The state in which the procedure of the task `tid` is called.
    turned-IsWell :
        (os : Os) (tid : ℕ)
        → IsWell cfg os
        → tid < os.tasks.n_tasks
        → IsWell cfg (turned cfg run os_cbk_sleep os tid)
    turned-IsWell os tid w h = record {
      tasks_fit = w.tasks_fit;
      current = inr h;
      own_queue = w.own_queue;
      events_fit = w.events_fit;
      queues_fit = w.queues_fit;
      valid = w.valid;
      known = w.known;
      distinct = w.distinct;
    }

    comes :
        (fuel d : ℕ) (os : Os)
        → d < fuel
        → IsWell cfg os
        → IsBehind os.tasks d j
        → (os.tasks.task_list j).state ≡ ready
        → ComesBy (suc d) os
    unfolding rounds
    comes zero d os enough w b r = absurd (omega arith)
    comes (suc fuel) d os enough w b r =
        let fits = w.tasks_fit in
        let pos : 0 < os.tasks.n_tasks = omega (arith, b.0) in
        let (tid, next, e) = os_schedule-IsFirstReady cfg run os_cbk_sleep os st turns pos fits in
        elim next [
          | inl (nobody, all) ↦
              absurd (omega (arith, b.0, found-le os.tasks d os.tasks.n_tasks b r all))
          | inr (d', hd, place, rr, before) ↦
              let le = found-le os.tasks d d' b r before in
              let some_task : (tid == no_tid) ≡ false = ground (arith, place, hd, fits, st.tasks) in
              let called : os_schedule cfg run os_cbk_sleep os
                  ≡ run (os.tasks.task_list tid).taskproc (turned cfg run os_cbk_sleep os tid) =
                subst
                  (λ b. os_schedule cfg run os_cbk_sleep os ≡ (
                    if b
                    then os_cbk_sleep (turned cfg run os_cbk_sleep os tid)
                    else run (os.tasks.task_list tid).taskproc
                        (turned cfg run os_cbk_sleep os tid)))
                  some_task e in
              elim (ℕ_discrete d' d) [
                | yes here ↦
                    let own : tid ≡ j =
                      place
                      ∙ ap (λ k. wrapped os.tasks.n_tasks (first_index os.tasks + k)) here
                      ∙ sym b.1 in
                    (
                      0,
                      omega arith,
                      os,
                      refl,
                      subst
                          (λ t.
                            os_schedule cfg run os_cbk_sleep os
                            ≡ run (os.tasks.task_list t).taskproc
                                (turned cfg run os_cbk_sleep os t))
                          own called,
                    )
                | no other ↦
                    let (s₁, e₁, h) =
                      Returns-elim
                        (run (os.tasks.task_list tid).taskproc (turned cfg run os_cbk_sleep os tid))
                        _
                        (keeps (turned cfg run os_cbk_sleep os tid)
                          (turned-IsWell os tid w (ground (arith, place, hd)))
                          (ground (arith, place, hd)) r) in
                    let (k, hk, s, ek, nx) =
                      comes fuel (d - d' - 1) s₁ (omega arith) h.0
                        (left os.tasks s₁.tasks d d' tid (omega (arith, st.tasks)) b (omega arith)
                          place h.1 h.2)
                        h.3 in
                    (
                      suc k,
                      omega arith,
                      s,
                      rounds-suc (os_schedule cfg run os_cbk_sleep) k os s₁ (called ∙ e₁) ∙ ek,
                      nx,
                    )
              ]
        ]

    -- In the round-robin build, with the static assertions, where the procedure of the running
    -- task, called in a well-formed state with that task in the table, returns, keeps the state
    -- well-formed and leaves the count of the tasks and the one that ran last: from a well-formed
    -- state on, a task of the table that is ready, and that these calls leave ready, has its
    -- procedure called within as many schedules as there are tasks.
    pub os_schedule-ComesBy :
        (os : Os)
        → IsWell cfg os
        → j < os.tasks.n_tasks
        → (os.tasks.task_list j).state ≡ ready
        → ComesBy os.tasks.n_tasks os
    os_schedule-ComesBy os w hj r =
        let first = first_index os.tasks in
        let d = if leb first j then j - first else j + os.tasks.n_tasks - first in
        let b : IsBehind os.tasks d j = ground arith in
        let (k, hk, s, e, nx) = comes (suc d) d os (omega arith) w b r in
        (k, omega (arith, b.0, hk), s, e, nx)
