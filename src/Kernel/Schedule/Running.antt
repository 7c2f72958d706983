-- ===== src/Kernel/Schedule/Running.antt =====
-- os_kernel/src/os_kernel.c: the loops of `os_start` and `os_start_locking` keep the state of the
-- kernel well-formed.
use coco_os.Base.{ℕ, zero, suc, ◌<◌, ◌≡◌, ◌⊎◌, false, arith, inl, inr}
use coco_os.Base.Tests.{ltb, leb, ◌==◌, lt→ltb, Bool-cases}
use coco_os.Base.Outcome.{Result, ◌>>=◌, Safe, Safe_bind, Safe_mono, Safe_assert}
use coco_os.Config.{Config, no_tid}
use coco_os.Task.{task_at}
use coco_os.System.{Os}
use coco_os.System.Invariant.{IsSound, IsWell}
use coco_os.Kernel.{pick, task_run, os_schedule, schedule_loop, os_start, os_start_locking}
use coco_os.Kernel.Safety.{pick-IsWell}

module _ (cfg : Config) where
  -- The state is well-formed, and in the round-robin build there is a task.
  abbrev pub IsManned : Os → Type 0
  IsManned os = IsWell cfg os × ((0 < os.tasks.n_tasks) ⊎ (cfg.round_robin ≡ false))

  -- A call keeps the state well-formed, and fails by no more than an assertion.
  abbrev pub IsTame : (Os → Result Os) → Type 0
  IsTame f = (os : Os) → IsManned os → Safe (f os) IsManned

  -- The procedure of a task is called with the task running.
  abbrev pub IsTameTask : (Os → Result Os) → Type 0
  IsTameTask f = (os : Os) → IsManned os → os.running_tid < os.tasks.n_tasks → Safe (f os) IsManned

  module _ (sound : IsSound cfg) (run : ℕ → Os → Result Os) (os_cbk_sleep : Os → Result Os)
      (tasks_tame : (taskproc : ℕ) → IsTameTask (run taskproc))
      (sleep_tame : IsTame os_cbk_sleep) where
    task_run-IsManned : (os : Os) → IsManned os → Safe (task_run cfg run os_cbk_sleep os) IsManned
    unfolding task_run task_at
    task_run-IsManned os m = Safe_assert (ltb os.running_tid os.tasks.n_tasks) _ IsManned (λ inside.
        let runs : os.running_tid < os.tasks.n_tasks = ground (arith, inside) in
        rw (lt→ltb os.running_tid cfg.max_tasks (omega (arith, m.0.tasks_fit)))
          (tasks_tame _ os m runs))

    os_schedule-IsTame : IsTame (os_schedule cfg run os_cbk_sleep)
    unfolding os_schedule
    os_schedule-IsTame os m =
        Safe_bind (pick cfg (record os { running_tid = no_tid })) _ IsManned IsManned
          (Safe_mono (pick cfg (record os { running_tid = no_tid })) _ IsManned
            (pick-IsWell cfg sound os m.0 m.1)
            (λ os' k.
              (k.0, elim (m.1) [ inl pos ↦ inl (omega (arith, k.1)) | inr prio ↦ inr prio ])))
          (λ os' m'. elim (Bool-cases (os'.running_tid == no_tid)) [
            | inl nobody ↦ rw nobody (sleep_tame os' m')
            | inr somebody ↦ rw somebody (task_run-IsManned os' m')
          ])

    loop-IsManned :
        (body : Os → Result Os) (fuel tick_limit i : ℕ) (os : Os)
        → IsTame body
        → IsManned os
        → Safe (schedule_loop cfg run os_cbk_sleep body fuel tick_limit i os) (λ r. IsManned r.1)
    unfolding schedule_loop
    loop-IsManned body zero tick_limit i os tame m = m
    loop-IsManned body (suc fuel) tick_limit i os tame m = elim (Bool-cases (leb i tick_limit)) [
      | inr over ↦ rw over m
      | inl more ↦ rw more (
          Safe_bind (body os) _ IsManned (λ r. IsManned r.1) (tame os m)
            (λ os' m'. loop-IsManned body fuel tick_limit _ os' tame m'))
    ]

    begun : (os : Os) → IsManned os → IsManned (record os { running = 1 })
    begun os m = (
      record {
        tasks_fit = m.0.tasks_fit;
        current = m.0.current;
        own_queue = m.0.own_queue;
        events_fit = m.0.events_fit;
        queues_fit = m.0.queues_fit;
        valid = m.0.valid;
        known = m.0.known;
        distinct = m.0.distinct;
      },
      m.1,
    )

    -- Where the static assertions hold and each configured event has its bit in the wait queues (so
    -- with up to 16 events, but not with 17): let the state be well-formed, with a task at least in
    -- the round-robin build, and let the sleep callback, the lock and the unlock, and the procedure
    -- of a running task of the table, keep it so or fail an assertion. Then `os_start` keeps it so,
    -- or an assertion fails, for any number of rounds, and `os_start_locking` does. Neither makes
    -- an access outside an array or a division by zero.
    pub os_start-IsManned :
        (lock unlock : Os → Result Os) (fuel tick_limit : ℕ) (os : Os)
        → IsTame lock
        → IsTame unlock
        → IsManned os
        → Safe (os_start cfg run os_cbk_sleep fuel tick_limit os) (λ r. IsManned r.1)
          × Safe
              (os_start_locking cfg run os_cbk_sleep lock unlock fuel tick_limit os)
              (λ r. IsManned r.1)
    unfolding os_start os_start_locking
    os_start-IsManned lock unlock fuel tick_limit os h₁ h₂ m = (
      loop-IsManned (os_schedule cfg run os_cbk_sleep) fuel tick_limit 0 _ os_schedule-IsTame
          (begun os m),
      loop-IsManned (λ os. lock os >>= os_schedule cfg run os_cbk_sleep >>= unlock) fuel tick_limit
          0 _
          (λ os m.
            Safe_bind (lock os >>= os_schedule cfg run os_cbk_sleep) unlock IsManned IsManned
              (Safe_bind (lock os) (os_schedule cfg run os_cbk_sleep) IsManned IsManned (h₁ os m)
                os_schedule-IsTame)
              h₂)
          (begun os m),
    )
