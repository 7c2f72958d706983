-- ===== src/Task/Schedule/Priority.antt =====
-- os_task/src/os_task.c: `highest_prio_ready_task`.
use coco_os.Base.{ℕ, ◌+◌, ◌≤◌, ◌<◌, ◌≡◌, refl, ◌⊎◌, inl, inr, arith}
use coco_os.Base.Tests.{lt→ltb}
use coco_os.Base.Arrays.{for_range, for_range_inv}
use coco_os.Base.Outcome.{Result, ok, ◌>>=◌, Returns, Returns-elim}
use coco_os.Config.{Config, IsStatic, no_tid}
use coco_os.Task.{Tasks, ready, task_at}
use coco_os.Task.Schedule.{Best, consider, highest_prio_ready_task}

-- `tid` is ready and no ready task goes before it; or it is NO_TID, and each ready task has the
-- priority 255.
abbrev pub IsHighestReady : Tasks → ℕ → Type 0
IsHighestReady ts tid =
    ((tid ≡ no_tid)
      × ((j : ℕ) → j < ts.n_tasks → (ts.task_list j).state ≡ ready → 255 ≤ (ts.task_list j).prio))
    ⊎ ((tid < ts.n_tasks)
        × ((ts.task_list tid).state ≡ ready)
        × ((ts.task_list tid).prio < 255)
        × ((j : ℕ)
            → j < ts.n_tasks
            → (ts.task_list j).state ≡ ready
            → (ts.task_list tid).prio ≤ (ts.task_list j).prio))

module _ (cfg : Config) (ts : Tasks) where
  record Chosen (i : ℕ) (b : Best) : Type 0 where
    least : (j : ℕ) → j < i → (ts.task_list j).state ≡ ready → b.prio ≤ (ts.task_list j).prio
    own :
        ((b.task ≡ no_tid) × (b.prio ≡ 255))
        ⊎ ((b.task < i)
            × ((ts.task_list b.task).state ≡ ready)
            × ((ts.task_list b.task).prio ≡ b.prio)
            × (b.prio < 255))

  consider-Chosen : (i : ℕ) (b : Best) → Chosen i b → Chosen (i + 1) (consider i (ts.task_list i) b)
  consider-Chosen i b h = record {
    least = λ j hj r. ground (arith, h.least j);
    own = ground (arith, h.own);
  }

  highest : (b : Best) → Chosen ts.n_tasks b → IsHighestReady ts b.task
  highest b h = elim h.own [
    | inl (none, p) ↦ inl (none, λ j hj r. omega (arith, h.least j hj r))
    | inr (lt, r, p, below) ↦ inr (lt, r, omega arith, λ j hj rj. omega (arith, h.least j hj rj))
  ]

  -- With a legal table `highest_prio_ready_task` returns a ready task below the priority 255 that
  -- no ready task goes before; or NO_TID, and then each ready task has the priority 255.
  pub highest_prio_ready_task_lem :
      IsStatic cfg
      → ts.n_tasks ≤ cfg.max_tasks
      → Returns (highest_prio_ready_task cfg ts) (IsHighestReady ts)
  unfolding highest_prio_ready_task task_at
  highest_prio_ready_task_lem st le =
      let (b, e, h) = Returns-elim (for_range ts.n_tasks 0 body start) (Chosen ts.n_tasks) (
        for_range_inv Chosen body ts.n_tasks
          (λ i b hi h. rw (lt→ltb i cfg.max_tasks (omega arith)) (consider-Chosen i b h)) ts.n_tasks
          0 start (omega arith)
          (record { least = λ j hj r. absurd (omega arith); own = inl (refl, refl) })) in
      rw e (highest b h)
    where
      start : Best
      start = record { prio = 255; task = no_tid }

      body : ℕ → Best → Result Best
      body i b = do t ← task_at cfg i ts; ok (consider i t b)
