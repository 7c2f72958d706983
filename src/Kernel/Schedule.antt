-- ===== src/Kernel/Schedule.antt =====
-- os_kernel/src/os_kernel.c: `os_schedule` and the loop of `os_start`.
pub mod Running
pub mod Fair
use coco_os.Base.{ℕ, zero, suc, ◌+◌, ◌%◌, ◌≤◌, ◌<◌, ◌≡◌, ◌⊎◌, inl, inr, true, false, refl, arith}
use coco_os.Base.Tests.{leb, ◌==◌, if◌then◌else◌, lt→ltb}
use coco_os.Task.Schedule.{next_ready_task, first_index}
use coco_os.Task.Schedule.RoundRobin.{
  IsFirstReady, IsNextReady, IsFirstReady-IsNextReady, next_ready_task-IsFirstReady,
}
use coco_os.Base.Outcome.{bind_steps, Returns-elim, Result, ok, ◌>>=◌}
use coco_os.Config.{Config, IsStatic, no_tid}
use coco_os.Task.{task_at}
use coco_os.Task.Schedule.{highest_prio_ready_task}
use coco_os.Task.Schedule.Priority.{IsHighestReady, highest_prio_ready_task_lem}
use coco_os.System.{Os}
use coco_os.System.Tick.{u32_mod}
use coco_os.Kernel.{pick, task_run, os_schedule, schedule_loop, os_start}

-- `n` rounds, one after the other.
pub rounds : (Os → Result Os) → ℕ → Os → Result Os
rounds body zero os = ok os
rounds body (suc n) os = body os >>= rounds body n

module _ (cfg : Config) (run : ℕ → Os → Result Os) (os_cbk_sleep : Os → Result Os) where
  loop_ends :
      (body : Os → Result Os) (tick_limit left fuel i : ℕ) (os : Os)
      → 0 < tick_limit
      → tick_limit + 1 < u32_mod
      → i + left ≡ tick_limit + 1
      → left ≤ fuel
      → schedule_loop cfg run os_cbk_sleep body fuel tick_limit i os
        ≡ (rounds body left os >>= λ os'. ok (true, os'))
  unfolding schedule_loop rounds
  loop_ends body tick_limit zero zero i os pos fits e le = ground arith
  loop_ends body tick_limit zero (suc fuel) i os pos fits e le = ground arith
  loop_ends body tick_limit (suc left) zero i os pos fits e le = absurd (omega arith)
  loop_ends body tick_limit (suc left) (suc fuel) i os pos fits e le =
      let go : leb i tick_limit ≡ true = ground arith in
      let nz : (tick_limit == 0) ≡ false = ground arith in
      rw (go, nz)
        (bind_steps (body os) _ (rounds body left) _ (λ os'.
          loop_ends body tick_limit left fuel ((i + 1) % u32_mod) os' pos fits (omega arith)
            (omega arith)))

  loop_goes_on :
      (body : Os → Result Os) (tick_limit fuel i : ℕ) (os : Os)
      → (tick_limit ≡ 0) ⊎ (tick_limit + 1 ≡ u32_mod)
      → i ≤ tick_limit
      → schedule_loop cfg run os_cbk_sleep body fuel tick_limit i os
        ≡ (rounds body fuel os >>= λ os'. ok (false, os'))
  unfolding schedule_loop rounds
  loop_goes_on body tick_limit zero i os u le = ground arith
  loop_goes_on body tick_limit (suc fuel) i os u le =
      let go : leb i tick_limit ≡ true = ground arith in
      rw go (
        bind_steps (body os) _ (rounds body fuel) _
          (λ os'. loop_goes_on body tick_limit fuel _ os' u (ground arith)))

  -- With a limit other than 0 and the largest `uint32_t`, `os_start` schedules once more than the
  -- limit says and then ends, or ends earlier with what halts one of these schedules.
  pub os_start-ends :
      (tick_limit fuel : ℕ) (os : Os)
      → 0 < tick_limit
      → tick_limit + 1 < u32_mod
      → tick_limit + 1 ≤ fuel
      → os_start cfg run os_cbk_sleep fuel tick_limit os ≡ (
          rounds (os_schedule cfg run os_cbk_sleep) (tick_limit + 1) (record os { running = 1 })
          >>= λ os'. ok (true, os'))
  unfolding os_start
  os_start-ends tick_limit fuel os pos fits le =
      loop_ends (os_schedule cfg run os_cbk_sleep) tick_limit (tick_limit + 1) fuel 0 _ pos fits
        (omega arith) le

  -- With the limit 0, and also with the largest `uint32_t`, the loop has not ended after any number
  -- of rounds; each round is one schedule.
  pub os_start-goes_on :
      (tick_limit fuel : ℕ) (os : Os)
      → (tick_limit ≡ 0) ⊎ (tick_limit + 1 ≡ u32_mod)
      → os_start cfg run os_cbk_sleep fuel tick_limit os ≡ (
          rounds (os_schedule cfg run os_cbk_sleep) fuel (record os { running = 1 }) >>= λ os'.
          ok (false, os'))
  unfolding os_start
  os_start-goes_on tick_limit fuel os u = loop_goes_on _ tick_limit fuel 0 _ u (omega arith)

  -- What a schedule by priority does with the table `ts`: it sleeps, with no task running, when each
  -- ready task has the priority 255; and else it runs the procedure of the best.
  abbrev pub Scheduled : Os → Result Os → Type 0
  Scheduled os r =
      (tid : ℕ) × IsHighestReady os.tasks tid
      × (r ≡ (
          if tid == no_tid
          then os_cbk_sleep (record os { running_tid = no_tid })
          else run (os.tasks.task_list tid).taskproc (record os { running_tid = tid })))

  abbrev pub turned : Os → ℕ → Os
  turned os tid = record os {
    running_tid = tid;
    tasks = record (os.tasks) { last_running_task = tid };
  }

  pick_next :
      (os : Os) (tid : ℕ)
      → cfg.round_robin ≡ true
      → next_ready_task cfg os.tasks ≡ ok (record (os.tasks) { last_running_task = tid })
      → pick cfg os ≡ ok (turned os tid)
  unfolding pick
  pick_next os tid p e = ground (arith, p, e)

  pick_lem :
      (os : Os) (tid : ℕ)
      → cfg.round_robin ≡ false
      → highest_prio_ready_task cfg os.tasks ≡ ok tid
      → pick cfg os ≡ ok (record os { running_tid = tid })
  unfolding pick
  pick_lem os tid p e = ground (arith, p, e)

  -- In the build that schedules by priority `os_schedule` calls the sleep callback, with no running
  -- task, just when no task is ready below the priority 255; and else it calls the procedure of the
  -- ready task that none goes before, with its id as that of the running task.
  pub os_schedule_lem :
      (os : Os)
      → IsStatic cfg
      → cfg.round_robin ≡ false
      → os.tasks.n_tasks ≤ cfg.max_tasks
      → Scheduled os (os_schedule cfg run os_cbk_sleep os)
  unfolding os_schedule task_run task_at
  os_schedule_lem os st p le =
      let (tid, e, h) =
        Returns-elim (highest_prio_ready_task cfg os.tasks) (IsHighestReady os.tasks)
          (highest_prio_ready_task_lem cfg os.tasks st le) in
      (
        tid,
        h,
        rw (pick_lem (record os { running_tid = no_tid }) tid p e) (elim h [
          | inl (none, all) ↦ rw none refl
          | inr (below, r, q, all) ↦
              let some : (tid == no_tid) ≡ false = ground arith in
              rw (some, lt→ltb _ _ below, lt→ltb tid cfg.max_tasks (omega arith)) refl
        ]),
      )

  -- The scheduled task, counted from where the scan starts.
  pub os_schedule-IsFirstReady :
      (os : Os)
      → IsStatic cfg
      → cfg.round_robin ≡ true
      → 0 < os.tasks.n_tasks
      → os.tasks.n_tasks ≤ cfg.max_tasks
      → (tid : ℕ) × IsFirstReady os.tasks (first_index os.tasks) os.tasks.n_tasks tid
        × (os_schedule cfg run os_cbk_sleep os ≡ (
            if tid == no_tid
            then os_cbk_sleep (turned os tid)
            else run (os.tasks.task_list tid).taskproc (turned os tid)))
  unfolding os_schedule task_run task_at
  os_schedule-IsFirstReady os st p some le =
      let (tid, e, h) = next_ready_task-IsFirstReady cfg os.tasks st le some in
      (
        tid,
        h,
        rw (pick_next (record os { running_tid = no_tid }) tid p e) (elim h [
          | inl (none, all) ↦ rw none refl
          | inr (d, hd, at, r, rest) ↦
              let below : tid < os.tasks.n_tasks = ground arith in
              let runs : (tid == no_tid) ≡ false = ground arith in
              rw (runs, lt→ltb _ _ below, lt→ltb tid cfg.max_tasks (omega arith)) refl
        ]),
      )

  -- In the round-robin build, with the static assertions and with at least one task, no more than
  -- the table has room for: `os_schedule` leaves in `last_running_task` the ready task that comes
  -- first round the table after the one that ran last, or from the task 0 on where that is none of
  -- the table, and calls its procedure, with its id as that of the running task; with no ready task
  -- it leaves NO_TID there and calls the sleep callback.
  pub os_schedule-IsNextReady :
      (os : Os)
      → IsStatic cfg
      → cfg.round_robin ≡ true
      → 0 < os.tasks.n_tasks
      → os.tasks.n_tasks ≤ cfg.max_tasks
      → (tid : ℕ) × IsNextReady os.tasks tid
        × (os_schedule cfg run os_cbk_sleep os ≡ (
            if tid == no_tid
            then os_cbk_sleep (turned os tid)
            else run (os.tasks.task_list tid).taskproc (turned os tid)))
  os_schedule-IsNextReady os st p some le =
      let (tid, h, e) = os_schedule-IsFirstReady os st p some le in
      (tid, IsFirstReady-IsNextReady cfg os.tasks st le tid h, e)
