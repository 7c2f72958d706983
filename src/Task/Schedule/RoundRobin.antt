-- ===== src/Task/Schedule/RoundRobin.antt =====
-- os_task/src/os_task.c: `next_ready_task`.
use coco_os.Base.{
  ℕ, zero, suc, ◌+◌, ◌-◌, ◌≤◌, ◌<◌, ◌≡◌, ◌≢◌, refl, ◌⊎◌, inl, inr, arith, ◌%◌, ◌∙◌, sym,
}
use mathlib.Core.Path.{subst}
use coco_os.Base.Tests.{ltb, leb, ◌==◌, if◌then◌else◌, Bool-cases}
use coco_os.Base.Outcome.{ok}
use coco_os.Config.{Config, IsStatic, no_tid}
use coco_os.Task.{Tasks, TaskState, is, is→eq, not_is→ne, ready, task_at}
use coco_os.Task.Schedule.{scan_ready, next_ready_task, first_index}

-- `k` places round a circle of `n`, for `k` below `2 n`
abbrev pub wrapped : ℕ → ℕ → ℕ
wrapped n k = if ltb k n then k else k - n

-- Of the `m` tasks from `index` on, round the table, `r` is the first that is ready; or none is,
-- and `r` is NO_TID.
abbrev pub IsFirstReady : Tasks → ℕ → ℕ → ℕ → Type 0
IsFirstReady ts index m r =
    ((r ≡ no_tid)
      × ((e : ℕ) → e < m → (ts.task_list (wrapped ts.n_tasks (index + e))).state ≢ ready))
    ⊎ ((d : ℕ) × (d < m)
        × (r ≡ wrapped ts.n_tasks (index + d))
        × ((ts.task_list r).state ≡ ready)
        × ((e : ℕ) → e < d → (ts.task_list (wrapped ts.n_tasks (index + e))).state ≢ ready))

-- `e` places after the task that ran last, round the table; from the task 0 on, if none of the table
-- ran last.
abbrev pub place_after : Tasks → ℕ → ℕ
place_after ts e =
    if ltb ts.last_running_task ts.n_tasks
    then wrapped ts.n_tasks (ts.last_running_task + 1 + e)
    else e

-- `r` is ready, and no task between the one that ran last and `r` is; or `r` is NO_TID, and no task
-- of the table is ready.
abbrev pub IsNextReady : Tasks → ℕ → Type 0
IsNextReady ts r =
    ((r ≡ no_tid) × ((j : ℕ) → j < ts.n_tasks → (ts.task_list j).state ≢ ready))
    ⊎ ((d : ℕ) × (d < ts.n_tasks)
        × (r ≡ place_after ts d)
        × ((ts.task_list r).state ≡ ready)
        × ((e : ℕ) → e < d → (ts.task_list (place_after ts e)).state ≢ ready))

wrapped-suc :
    (n index e : ℕ)
    → index < n
    → e < n
    → wrapped n ((if index + 1 == n then 0 else index + 1) + e) ≡ wrapped n (index + suc e)
wrapped-suc n index e hi he = ground arith

wrapped_start : (n index : ℕ) → index < n → wrapped n (index + 0) ≡ index
wrapped_start n index h = ground arith

module _ (ts : Tasks) (index : ℕ) (hi : index < ts.n_tasks) where
  abbrev state_at : ℕ → TaskState
  state_at e = (ts.task_list (wrapped ts.n_tasks (index + e))).state

  skipped :
      (m : ℕ)
      → m < ts.n_tasks
      → (ts.task_list index).state ≢ ready
      → ((e : ℕ)
          → e < m
          → (ts.task_list
              (wrapped ts.n_tasks ((if index + 1 == ts.n_tasks then 0 else index + 1) + e))).state
            ≢ ready)
      → (e : ℕ) → e < suc m
      → state_at e ≢ ready
  skipped m hm here rest zero h =
      subst (λ k. (ts.task_list k).state ≢ ready) (sym (wrapped_start ts.n_tasks index hi)) here
  skipped m hm here rest (suc e) h =
      subst (λ k. (ts.task_list k).state ≢ ready) (wrapped-suc ts.n_tasks index e hi (omega arith))
        (rest e (omega arith))

  -- The scan passes a task that is not ready.
  IsFirstReady-suc :
      (m r : ℕ)
      → m < ts.n_tasks
      → (ts.task_list index).state ≢ ready
      → IsFirstReady ts (if index + 1 == ts.n_tasks then 0 else index + 1) m r
      → IsFirstReady ts index (suc m) r
  IsFirstReady-suc m r hm here (inl (none, rest)) = inl (none, skipped m hm here rest)
  IsFirstReady-suc m r hm here (inr (d, hd, at, is_ready, rest)) = inr (
    suc d,
    omega arith,
    at ∙ wrapped-suc ts.n_tasks index d hi (omega arith),
    is_ready,
    skipped d (omega arith) here rest,
  )

module _ (cfg : Config) (ts : Tasks) (st : IsStatic cfg) (le : ts.n_tasks ≤ cfg.max_tasks) where
  scan_ready_lem :
      (fuel index n_checked : ℕ)
      → index < ts.n_tasks
      → n_checked < ts.n_tasks
      → ts.n_tasks ≤ fuel + n_checked
      → (r : ℕ) × (scan_ready cfg fuel index n_checked ts
          ≡ ok (record ts { last_running_task = r }))
        × IsFirstReady ts index (ts.n_tasks - n_checked) r
  unfolding scan_ready task_at
  scan_ready_lem zero index n_checked hi hc hf = absurd (omega arith)
  scan_ready_lem (suc fuel) index n_checked hi hc hf =
      elim (Bool-cases (is (ts.task_list index).state ready)) [
        | inl found ↦ (
          index,
          ground arith,
          inr (
            0,
            omega arith,
            sym (wrapped_start ts.n_tasks index hi),
            is→eq _ _ found,
            λ e h. absurd (omega arith),
          ),
        )
        | inr other ↦ elim (Bool-cases ((n_checked + 1) % 256 == ts.n_tasks)) [
          | inl last ↦ (
            no_tid,
            ground arith,
            subst (λ m. IsFirstReady ts index m no_tid) (ground arith)
                (IsFirstReady-suc ts index hi 0 no_tid (omega arith) (not_is→ne _ _ other)
                  (inl (refl, λ e h. absurd (omega arith)))),
          )
          | inr more ↦
              let (r, e, h) =
                scan_ready_lem fuel (if index + 1 == ts.n_tasks then 0 else index + 1)
                  ((n_checked + 1) % 256) (ground arith) (ground arith) (ground arith) in
              (
                r,
                ground (arith, e),
                subst (λ m. IsFirstReady ts index m r) (ground arith)
                    (IsFirstReady-suc ts index hi (ts.n_tasks - (n_checked + 1) % 256) r
                      (ground arith) (not_is→ne _ _ other) h),
              )
        ]
      ]

  first_index-lt : 0 < ts.n_tasks → first_index ts < ts.n_tasks
  first_index-lt h = ground arith

  -- The scan from where it starts.
  pub next_ready_task-IsFirstReady :
      0 < ts.n_tasks
      → (r : ℕ) × (next_ready_task cfg ts ≡ ok (record ts { last_running_task = r }))
        × IsFirstReady ts (first_index ts) ts.n_tasks r
  unfolding next_ready_task
  next_ready_task-IsFirstReady h =
      let (r, e, next) = scan_ready_lem 256 (first_index ts) 0 (first_index-lt h) h (omega arith) in
      (r, e, subst (λ m. IsFirstReady ts (first_index ts) m r) (omega arith) next)

  place_after_lem :
      (e : ℕ) → e < ts.n_tasks → wrapped ts.n_tasks (first_index ts + e) ≡ place_after ts e
  place_after_lem e h = let few = st.tasks in ground arith

  -- Each task of the table is so many places behind the first.
  place_of :
      (j : ℕ)
      → j < ts.n_tasks
      → (e : ℕ) × (e < ts.n_tasks) × (wrapped ts.n_tasks (first_index ts + e) ≡ j)
  place_of j h =
      let first = first_index ts in
      let e = if leb first j then j - first else j + ts.n_tasks - first in
      (e, ground arith, ground arith)

  pub IsFirstReady-IsNextReady :
      (r : ℕ) → IsFirstReady ts (first_index ts) ts.n_tasks r → IsNextReady ts r
  IsFirstReady-IsNextReady r (inl (none, all)) = inl (
    none,
    λ j h.
        let (e, he, at) = place_of j h in subst (λ k. (ts.task_list k).state ≢ ready) at (all e he),
  )
  IsFirstReady-IsNextReady r (inr (d, hd, at, is_ready, before)) = inr (
    d,
    hd,
    at ∙ place_after_lem d hd,
    is_ready,
    λ e he.
        subst (λ k. (ts.task_list k).state ≢ ready) (place_after_lem e (omega arith)) (before e he),
  )

  -- With at least one task, no more than the table has room for, and with the static assertions,
  -- `next_ready_task` ends, changes `last_running_task` only, and returns the first ready task that
  -- comes, round the table, after the one that ran last, or from the task 0 on where that is none
  -- of the table; or NO_TID when no task is ready.
  pub next_ready_task_lem :
      0 < ts.n_tasks
      → (r : ℕ) × (next_ready_task cfg ts ≡ ok (record ts { last_running_task = r }))
        × IsNextReady ts r
  next_ready_task_lem h =
      let (r, e, next) = next_ready_task-IsFirstReady h in (r, e, IsFirstReady-IsNextReady r next)
