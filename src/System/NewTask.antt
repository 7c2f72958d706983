-- ===== src/System/NewTask.antt =====
-- os_task/src/os_task.c: when `os_task_create` succeeds, and what it leaves.
use coco_os.Base.{
  ap, ◌∙◌, true, false, ℕ, zero, suc, ◌+◌, ◌≤◌, ◌<◌, ◌≡◌, ◌≢◌, ◌⊎◌, inl, inr, refl, arith,
}
use coco_os.Base.Tests.{◌==◌, if◌then◌else◌}
use coco_os.Base.Outcome.{Returns_mono, ok, halt, assertion, Returns}
use native.Mathlib.Decide.{ℕ_discrete, dec_lt}
use coco_os.Config.{event_queue_size, Config, no_queue}
use coco_os.Task.{ready, Tcb, Tasks, task_at, modify}
use coco_os.Task.Events.{os_task_clear_wait_queue, clear_wait_queue}
use coco_os.Task.Events.Waiting.{fill_lem}
use coco_os.System.{Os}
use coco_os.System.Create.{TaskSpec, new_task, check_prio, os_task_create}

-- No task below `n` has the priority.
abbrev pub IsFree : ℕ → ℕ → Tasks → Type 0
IsFree n prio ts = (j : ℕ) → j < n → (ts.task_list j).prio ≢ prio

-- No two tasks of the table have the same priority.
abbrev pub IsDistinct : Tasks → Type 0
IsDistinct ts = (i j : ℕ) → i < j → j < ts.n_tasks → (ts.task_list i).prio ≢ (ts.task_list j).prio

module _ (cfg : Config) where
  pub check_prio_lem :
      (n prio : ℕ) (ts : Tasks)
      → n ≤ cfg.max_tasks
      → (IsFree n prio ts × (check_prio cfg n prio ts ≡ ok tt))
        ⊎ (¬ IsFree n prio ts × (check_prio cfg n prio ts ≡ halt assertion))
  unfolding check_prio task_at
  check_prio_lem zero prio ts h = inl (λ j hj. absurd (omega arith), refl)
  check_prio_lem (suc n) prio ts h = elim (ℕ_discrete (ts.task_list n).prio prio) [
    | yes e ↦ inr (λ free. free n (omega arith) e, ground arith)
    | no ne ↦ elim (check_prio_lem n prio ts (omega arith)) [
      | inl r ↦ inl (
        λ j hj. elim (dec_lt j n) [
          | yes lt ↦ r.0 j lt
          | no ge ↦ let je : j ≡ n = omega arith in rw je ne
        ],
        ground arith,
      )
      | inr r ↦ inr (λ free. r.0 (λ j hj. free j (omega arith)), ground arith)
    ]
  ]

  abbrev pub CanCreate : TaskSpec → Os → Type 0
  CanCreate a os =
      (os.running ≡ 0)
      × (os.tasks.n_tasks < cfg.max_tasks)
      × (a.taskproc ≢ 0)
      × IsFree os.tasks.n_tasks a.prio os.tasks

  -- The task control block `t` after the creation of the task `tid` with no message queue, from the
  -- control block `before`.
  pub record IsFresh (a : TaskSpec) (tid : ℕ) (before t : Tcb) : Type 0 where
    pub own_id : t.tid ≡ tid
    pub prio : t.prio ≡ a.prio
    pub taskproc : t.taskproc ≡ a.taskproc
    pub data_ptr : t.data_ptr ≡ a.data_ptr
    pub state : t.state ≡ ready
    pub saved_state : t.saved_state ≡ ready
    pub internal_state : t.internal_state ≡ 0
    pub semaphore : t.semaphore ≡ 0
    pub time : t.time ≡ 0
    pub no_queue_yet : t.msg_q ≡ 255
    pub wait_single_event : t.wait_single_event ≡ false
    pub awaits_none : (i : ℕ) → i < event_queue_size cfg → t.event_queue i ≡ 0
    pub clock_id : t.clock_id ≡ before.clock_id
    pub wait_q : t.wait_q ≡ before.wait_q
    pub msg_change_event : t.msg_change_event ≡ before.msg_change_event
    pub msg_result : t.msg_result ≡ before.msg_result

  -- What the code sets, field by field.
  abbrev created : TaskSpec → ℕ → Tcb → Tcb
  created a n t =
      clear_wait_queue cfg (record (new_task a n t) { msg_q = no_queue; data_ptr = a.data_ptr })

  created-IsFresh : (a : TaskSpec) (n : ℕ) (t : Tcb) → IsFresh a n t (created a n t)
  created-IsFresh a n t = record {
    own_id = refl;
    prio = refl;
    taskproc = refl;
    data_ptr = refl;
    state = refl;
    saved_state = refl;
    internal_state = refl;
    semaphore = refl;
    time = refl;
    no_queue_yet = refl;
    wait_single_event = refl;
    awaits_none = λ i hi. ground (arith, fill_lem (event_queue_size cfg) 0 t.event_queue i);
    clock_id = refl;
    wait_q = refl;
    msg_change_event = refl;
    msg_result = refl;
  }

  abbrev pub Created : TaskSpec → Os → ℕ × Os → Type 0
  Created a os (tid, os') =
      (tid ≡ os.tasks.n_tasks)
      × (os'.tasks.n_tasks ≡ os.tasks.n_tasks + 1)
      × IsFresh a tid (os.tasks.task_list tid) (os'.tasks.task_list tid)
      × ((j : ℕ) → j ≢ tid → os'.tasks.task_list j ≡ os.tasks.task_list j)
      × (os'.running ≡ os.running)
      × (os'.sems ≡ os.sems)
      × (os'.events ≡ os.events)
      × (os'.queues ≡ os.queues)

  -- The same with the new control block as the code writes it.
  abbrev Written : TaskSpec → Os → ℕ × Os → Type 0
  Written a os (tid, os') =
      (tid ≡ os.tasks.n_tasks)
      × (os'.tasks.n_tasks ≡ os.tasks.n_tasks + 1)
      × ((j : ℕ)
          → os'.tasks.task_list j
            ≡ (if tid == j then created a tid (os.tasks.task_list j) else os.tasks.task_list j))
      × (os'.running ≡ os.running)
      × (os'.sems ≡ os.sems)
      × (os'.events ≡ os.events)
      × (os'.queues ≡ os.queues)

  Written-Created : (a : TaskSpec) (os : Os) (r : ℕ × Os) → Written a os r → Created a os r
  Written-Created a os (tid, os') (own, n, each, running, sems, events, queues) =
      let self : (tid == tid) ≡ true = ground arith in
      let here : os'.tasks.task_list tid ≡ created a tid (os.tasks.task_list tid) =
        each tid
        ∙ ap (λ b. if b then created a tid (os.tasks.task_list tid) else os.tasks.task_list tid)
            self in
      (
        own,
        n,
        rw here (created-IsFresh a tid (os.tasks.task_list tid)),
        λ j ne.
            let other : (tid == j) ≡ false = ground (arith, ne) in
            each j
            ∙ ap (λ b. if b then created a tid (os.tasks.task_list j) else os.tasks.task_list j)
                other,
        running,
        sems,
        events,
        queues,
      )

  can_create :
      (a : TaskSpec) (os : Os)
      → a.pool_size ≡ 0
      → cfg.max_tasks < 255
      → CanCreate a os
      → check_prio cfg os.tasks.n_tasks a.prio os.tasks ≡ ok tt
      → Returns (os_task_create cfg a os) (Created a os)
  unfolding os_task_create modify os_task_clear_wait_queue
  can_create a os nq small c e =
      let w : Returns (os_task_create cfg a os) (Written a os) = ground (arith, e) in
      Returns_mono (os_task_create cfg a os) (Written a os) (Created a os) w (Written-Created a os)

  -- In a build with fewer than 255 tasks and with no more tasks than the table has room for:
  -- `os_task_create` without a message queue succeeds just when the system is not running, the
  -- table has room, there is a task procedure and no task has the priority. The new task is then
  -- the next of the table: ready, and ready once resumed, at its first line, with no time,
  -- semaphore or queue, awaiting no event, and its id, procedure, priority and data those given; no
  -- other task changes, nor do the semaphores, the events and the queues. In each other case an
  -- assertion fails.
  pub os_task_create_lem :
      (a : TaskSpec) (os : Os)
      → a.pool_size ≡ 0
      → cfg.max_tasks < 255
      → os.tasks.n_tasks ≤ cfg.max_tasks
      → (CanCreate a os × Returns (os_task_create cfg a os) (Created a os))
        ⊎ (¬ CanCreate a os × (os_task_create cfg a os ≡ halt assertion))
  unfolding os_task_create
  os_task_create_lem a os nq small le = elim (ℕ_discrete os.running 0) [
    | no r ↦ inr (λ c. r c.0, ground arith)
    | yes r ↦ elim (dec_lt os.tasks.n_tasks cfg.max_tasks) [
      | no f ↦ inr (λ c. f c.1, ground arith)
      | yes f ↦ elim (ℕ_discrete a.taskproc 0) [
        | yes p ↦ inr (λ c. c.2 p, ground arith)
        | no p ↦ elim (check_prio_lem os.tasks.n_tasks a.prio os.tasks le) [
          | inr (u, e) ↦ inr (λ c. u c.3, ground (arith, e))
          | inl (u, e) ↦
              let c : CanCreate a os = (r, f, p, u) in inl (c, can_create a os nq small c e)
        ]
      ]
    ]
  ]

  Created-IsDistinct :
      (a : TaskSpec) (os : Os) (r : ℕ × Os)
      → CanCreate a os
      → IsDistinct os.tasks
      → Created a os r
      → IsDistinct r.1.tasks
  Created-IsDistinct a os (tid, os') c d h i j lt hj = elim (ℕ_discrete j tid) [
    | yes e ↦ ground (arith, h.2.prio, h.3 i, c.3 i)
    | no ne ↦ ground (arith, h.3 i, h.3 j, d i j)
  ]

  -- However `os_task_create` without a message queue ends, it returns or an assertion fails; and when
  -- it returns, the priorities of the tasks of the table are still distinct, all of them fit the
  -- table, and none that was there has moved.
  pub os_task_create-IsDistinct :
      (a : TaskSpec) (os : Os)
      → a.pool_size ≡ 0
      → cfg.max_tasks < 255
      → os.tasks.n_tasks ≤ cfg.max_tasks
      → IsDistinct os.tasks
      → (os_task_create cfg a os ≡ halt assertion)
        ⊎ Returns (os_task_create cfg a os) (λ r.
          IsDistinct r.1.tasks
          × (r.1.tasks.n_tasks ≤ cfg.max_tasks)
          × ((j : ℕ) → j < os.tasks.n_tasks → r.1.tasks.task_list j ≡ os.tasks.task_list j))
  os_task_create-IsDistinct a os nq small le d = elim (os_task_create_lem a os nq small le) [
    | inr r ↦ inl r.1
    | inl (c, r) ↦ inr (
        Returns_mono (os_task_create cfg a os) _ _ r (λ (tid, os') h. (
          Created-IsDistinct a os (tid, os') c d h,
          omega (arith, c.1, h.1),
          λ j hj. h.3 j (omega (arith, h.0)),
        )))
  ]
