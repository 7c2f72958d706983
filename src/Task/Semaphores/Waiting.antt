-- ===== src/Task/Semaphores/Waiting.antt =====
-- os_task/src/os_task.c: `os_task_waiting_this_semaphore`.
use coco_os.Base.Tests.{Bool-cases, lt→ltb}
use coco_os.Base.{ℕ, zero, suc, ◌+◌, ◌≤◌, ◌<◌, ◌≡◌, Bool, true, false, ◌⊎◌, inl, inr, refl, arith}
use coco_os.Base.Outcome.{Returns_mono, Returns}
use native.Mathlib.Decide.{ℕ_discrete}
use coco_os.Config.{Config}
use coco_os.Task.{Tasks, task_at}
use coco_os.Task.Semaphores.{waits_for, waiting_from, os_task_waiting_this_semaphore}

-- No task from `i` to `end` waits for the semaphore.
abbrev pub NoneWaits : ℕ → Tasks → ℕ → ℕ → Type 0
NoneWaits sem ts i end = (j : ℕ) → i ≤ j → j < end → waits_for sem (ts.task_list j) ≡ false

abbrev pub SomeWaits : ℕ → Tasks → ℕ → Type 0
SomeWaits sem ts end = (j : ℕ) × (j < end) × (waits_for sem (ts.task_list j) ≡ true)

abbrev pub IsWaitedFor : ℕ → Tasks → ℕ → ℕ → Bool → Type 0
IsWaitedFor sem ts i end b =
    ((b ≡ true) × SomeWaits sem ts end) ⊎ ((b ≡ false) × NoneWaits sem ts i end)

pub NoneWaits-add :
    (sem : ℕ) (ts : Tasks) (i : ℕ)
    → NoneWaits sem ts 0 i
    → waits_for sem (ts.task_list i) ≡ false
    → NoneWaits sem ts 0 (i + 1)
NoneWaits-add sem ts i none f j hi hj = elim (ℕ_discrete j i) [
  | yes e ↦ rw e f
  | no ne ↦ none j hi (omega arith)
]

module _ (cfg : Config) (sem : ℕ) (ts : Tasks) (le : ts.n_tasks ≤ cfg.max_tasks) where
  waiting_from_lem :
      (n i : ℕ)
      → i + n ≡ ts.n_tasks
      → Returns (waiting_from cfg sem n i ts) (IsWaitedFor sem ts i ts.n_tasks)
  unfolding waiting_from task_at
  waiting_from_lem zero i e = inr (refl, λ j hi hj. absurd (omega arith))
  waiting_from_lem (suc n) i e =
      let fits : i < cfg.max_tasks = omega arith in
      rw (lt→ltb _ _ fits) (elim (Bool-cases (waits_for sem (ts.task_list i))) [
        | inl t ↦ rw t (inl (refl, (i, omega arith, t)))
        | inr f ↦ rw f (
            Returns_mono (waiting_from cfg sem n (i + 1) ts) _ _
              (waiting_from_lem n (i + 1) (omega arith))
              (λ b h. elim h [
                | inl some ↦ inl some
                | inr (e, none) ↦ inr (
                  e,
                  λ j hi hj. elim (ℕ_discrete j i) [
                    | yes e ↦ rw e f
                    | no ne ↦ none j (omega arith) hj
                  ],
                )
              ]))
      ])

  pub os_task_waiting_this_semaphore_lem :
      Returns (os_task_waiting_this_semaphore cfg sem ts) (IsWaitedFor sem ts 0 ts.n_tasks)
  unfolding os_task_waiting_this_semaphore
  os_task_waiting_this_semaphore_lem = waiting_from_lem ts.n_tasks 0 (omega arith)
