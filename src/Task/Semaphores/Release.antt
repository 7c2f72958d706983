-- ===== src/Task/Semaphores/Release.antt =====
-- os_task/src/os_task.c: which task `os_task_release_waiting_task` makes ready.
use coco_os.Base.{ℕ, ◌+◌, ◌≤◌, ◌<◌, ◌≡◌, true, false, refl, ◌⊎◌, inl, inr, arith}
use coco_os.Base.Tests.{Bool-cases, lt→ltb, ◌==◌, if◌then◌else◌}
use coco_os.Base.Arrays.{for_range, for_range_inv, update}
use coco_os.Task.Semaphores.Waiting.{NoneWaits-add}
use mathlib.Core.Path.{subst, sym}
use coco_os.Task.Semaphores.{release_found}
use coco_os.Base.Outcome.{Returns_mono, Returns_bind, Result, ok, ◌>>=◌, Returns, Returns-elim}
use coco_os.Config.{Config, no_tid}
use coco_os.Task.{Tasks, Tcb, ready, task_at, modify}
use coco_os.Task.Semaphores.{
  waits_for, Highest, Longest, consider_highest, consider_longest, found_longest, highest_waiting,
  longest_waiting, os_task_release_waiting_task,
}
use coco_os.Task.Semaphores.Waiting.{NoneWaits}

-- The task is one of those that wait, and each of them has the property beside it.
abbrev pub IsBest : ℕ → Tasks → (Tcb → Tcb → Type 0) → ℕ → Type 0
IsBest sem ts Before tid =
    (tid < ts.n_tasks)
    × (waits_for sem (ts.task_list tid) ≡ true)
    × ((j : ℕ)
        → j < ts.n_tasks
        → waits_for sem (ts.task_list j) ≡ true
        → Before (ts.task_list tid) (ts.task_list j))

abbrev pub Urgent : Tcb → Tcb → Type 0
Urgent t u = (t.prio < 255) × (t.prio ≤ u.prio)

abbrev pub Longer : Tcb → Tcb → Type 0
Longer t u = u.time ≤ t.time

module _ (cfg : Config) (sem : ℕ) (ts : Tasks) (le : ts.n_tasks ≤ cfg.max_tasks)
    (small : cfg.max_tasks < 255) where
  record Leading (i : ℕ) (b : Highest) : Type 0 where
    least : (j : ℕ) → j < i → waits_for sem (ts.task_list j) ≡ true → b.prio ≤ (ts.task_list j).prio
    own :
        ((b.found ≡ no_tid) × (b.prio ≡ 255))
        ⊎ ((b.found < i)
            × (waits_for sem (ts.task_list b.found) ≡ true)
            × ((ts.task_list b.found).prio ≡ b.prio)
            × (b.prio < 255))

  consider-Leading :
      (i : ℕ) (b : Highest)
      → Leading i b
      → Leading (i + 1) (consider_highest sem i (ts.task_list i) b)
  consider-Leading i b h = record {
    least = λ j hj r. ground (arith, h.least j);
    own = ground (arith, h.own);
  }

  -- NO_TID, and each task that waits has the priority 255; or the best of them.
  abbrev pub IsUrgent : ℕ → Type 0
  IsUrgent tid =
      ((tid ≡ no_tid)
        × ((j : ℕ)
            → j < ts.n_tasks
            → waits_for sem (ts.task_list j) ≡ true
            → 255 ≤ (ts.task_list j).prio))
      ⊎ IsBest sem ts Urgent tid

  leading : (b : Highest) → Leading ts.n_tasks b → IsUrgent b.found
  leading b h = elim h.own [
    | inl (none, p) ↦ inl (none, λ j hj r. omega (arith, h.least j hj r))
    | inr (lt, r, p, below) ↦ inr (lt, r, λ j hj rj. (omega arith, omega (arith, h.least j hj rj)))
  ]

  pub highest_waiting_lem : Returns (highest_waiting cfg sem ts) IsUrgent
  unfolding highest_waiting task_at
  highest_waiting_lem =
      let (b, e, h) = Returns-elim (for_range ts.n_tasks 0 body start) (Leading ts.n_tasks) (
        for_range_inv Leading body ts.n_tasks
          (λ i b hi h. rw (lt→ltb i cfg.max_tasks (omega arith)) (consider-Leading i b h))
          ts.n_tasks 0 start (omega arith)
          (record { least = λ j hj r. absurd (omega arith); own = inl (refl, refl) })) in
      rw e (leading b h)
    where
      body : ℕ → Highest → Result Highest
      body i b = do t ← task_at cfg i ts; ok (consider_highest sem i t b)

      start : Highest
      start = record { prio = 255; found = no_tid }

  record Oldest (i : ℕ) (b : Longest) : Type 0 where
    most :
        (j : ℕ)
        → j < i
        → waits_for sem (ts.task_list j) ≡ true
        → (ts.task_list j).time ≤ b.wait_time
    own :
        ((b.wait_time ≡ 0) × (b.last_checked ≡ no_tid) × (b.found ≡ no_tid) × NoneWaits sem ts 0 i)
        ⊎ ((b.wait_time ≡ 0)
            × (b.last_checked < i)
            × (waits_for sem (ts.task_list b.last_checked) ≡ true))
        ⊎ ((0 < b.wait_time)
            × (b.found < i)
            × (waits_for sem (ts.task_list b.found) ≡ true)
            × ((ts.task_list b.found).time ≡ b.wait_time))

  consider-Oldest :
      (i : ℕ) (b : Longest)
      → Oldest i b
      → Oldest (i + 1) (consider_longest sem i (ts.task_list i) b)
  consider-Oldest i b h = record {
    most = λ j hj r. ground (arith, h.most j);
    own = elim h.own [
      | inl n ↦ elim (Bool-cases (waits_for sem (ts.task_list i))) [
        | inl t ↦ ground (arith, n)
        | inr f ↦
            inl (
              ground (arith, n),
              ground (arith, n),
              ground (arith, n),
              NoneWaits-add sem ts i n.3 f,
            )
      ]
      | inr (inl z) ↦ ground (arith, z)
      | inr (inr p) ↦ ground (arith, p)
    ];
  }

  -- NO_TID, and no task waits; or one that waited longest.
  abbrev pub IsLongest : ℕ → Type 0
  IsLongest tid = ((tid ≡ no_tid) × NoneWaits sem ts 0 ts.n_tasks) ⊎ IsBest sem ts Longer tid

  oldest : (b : Longest) → Oldest ts.n_tasks b → IsLongest (found_longest b)
  oldest b h = elim h.own [
    | inl (z, l, f, none) ↦ inl (ground (arith, z, l, f), none)
    | inr (inl (z, l, w)) ↦
        let e : found_longest b ≡ b.last_checked = ground arith in
        inr (rw e (l, w, λ j hj r. omega (arith, h.most j hj r)))
    | inr (inr (p, l, w, t)) ↦
        let e : found_longest b ≡ b.found = ground arith in
        inr (rw e (l, w, λ j hj r. omega (arith, h.most j hj r)))
  ]

  pub longest_waiting_lem : Returns (longest_waiting cfg sem ts) IsLongest
  unfolding longest_waiting task_at
  longest_waiting_lem =
      let (b, e, h) = Returns-elim (for_range ts.n_tasks 0 body start) (Oldest ts.n_tasks) (
        for_range_inv Oldest body ts.n_tasks
          (λ i b hi h. rw (lt→ltb i cfg.max_tasks (omega arith)) (consider-Oldest i b h)) ts.n_tasks
          0 start (omega arith)
          (record {
            most = λ j hj r. absurd (omega arith);
            own = inl (refl, refl, refl, λ j hi hj. absurd (omega arith));
          })) in
      rw e (oldest b h)
    where
      body : ℕ → Longest → Result Longest
      body i b = do t ← task_at cfg i ts; ok (consider_longest sem i t b)

      start : Longest
      start = record { wait_time = 0; last_checked = no_tid; found = no_tid }

  -- One task is made ready, and nothing else changes.
  abbrev pub Released : ℕ → Tasks → Type 0
  Released tid ts' = ts' ≡ record ts {
    task_list = update ts.task_list tid (record (ts.task_list tid) { state = ready });
  }

  release_none : release_found cfg no_tid ts ≡ ok ts
  unfolding release_found
  release_none = refl

  release_some : (tid : ℕ) → tid < ts.n_tasks → Returns (release_found cfg tid ts) (Released tid)
  unfolding release_found modify
  release_some tid h =
      let differs : (tid == no_tid) ≡ false = ground arith in
      rw differs (rw (lt→ltb tid cfg.max_tasks (omega arith)) refl)

  -- What follows from the choice `tid`.
  abbrev pub Release : Type 0 → (Tcb → Tcb → Type 0) → Tasks → Type 0
  Release None Before ts' =
      ((ts' ≡ ts) × None) ⊎ ((tid : ℕ) × IsBest sem ts Before tid × Released tid ts')

  release_lem :
      (None : Type 0) (Before : Tcb → Tcb → Type 0) (tid : ℕ)
      → ((tid ≡ no_tid) × None) ⊎ IsBest sem ts Before tid
      → Returns (release_found cfg tid ts) (Release None Before)
  release_lem None Before tid (inl (e, none)) = rw e (rw release_none (inl (refl, none)))
  release_lem None Before tid (inr best) =
      Returns_mono (release_found cfg tid ts) _ _ (release_some tid best.0)
        (λ ts' r. inr (tid, best, r))

  -- Every task that waits has the priority 255.
  abbrev pub AllLast : Type 0
  AllLast =
      (j : ℕ) → j < ts.n_tasks → waits_for sem (ts.task_list j) ≡ true → 255 ≤ (ts.task_list j).prio

  abbrev choice : Result ℕ
  choice = if cfg.round_robin then longest_waiting cfg sem ts else highest_waiting cfg sem ts

  -- In the build that schedules by priority a release makes ready, of the tasks that wait for the
  -- semaphore, one whose priority is below 255 and no more than that of any of them, and changes
  -- nothing else; or it changes nothing, and then all that wait have the priority 255.
  pub os_task_release_waiting_task-Urgent :
      cfg.round_robin ≡ false
      → Returns (os_task_release_waiting_task cfg sem ts) (Release AllLast Urgent)
  unfolding os_task_release_waiting_task
  os_task_release_waiting_task-Urgent p =
      Returns_bind choice (λ tid. release_found cfg tid ts) IsUrgent _
        (subst
          (λ b.
            Returns (if b then longest_waiting cfg sem ts else highest_waiting cfg sem ts) IsUrgent)
          (sym p) highest_waiting_lem)
        (release_lem _ Urgent)

  -- In the round-robin build a release makes ready, of the tasks that wait for the semaphore, one
  -- that no other has waited longer than, and changes nothing else; or it changes nothing, and then
  -- none waits.
  pub os_task_release_waiting_task-Longer :
      cfg.round_robin ≡ true
      → Returns
          (os_task_release_waiting_task cfg sem ts)
          (Release (NoneWaits sem ts 0 ts.n_tasks) Longer)
  unfolding os_task_release_waiting_task
  os_task_release_waiting_task-Longer p =
      Returns_bind choice (λ tid. release_found cfg tid ts) IsLongest _
        (subst
          (λ b.
            Returns (if b then longest_waiting cfg sem ts else highest_waiting cfg sem ts)
              IsLongest)
          (sym p) longest_waiting_lem)
        (release_lem _ Longer)
