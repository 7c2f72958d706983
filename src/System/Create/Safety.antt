-- ===== src/System/Create/Safety.antt =====
-- os_task/src/os_task.c and os_msgqueue/src/os_msgqueue.c: creating a task, with or without a
-- message queue, and creating events and semaphores keep the state of the kernel well-formed.
use coco_os.Base.{◌≢◌, ◌∙◌, ap, sym, ℕ, ◌+◌, ◌%◌, ◌≤◌, ◌<◌, ◌≡◌, ◌⊎◌, refl, arith, inl, inr, not}
use mathlib.Core.Path.{subst}
use coco_os.Base.Tests.{ltb, ◌==◌, lt→ltb, Bool-cases}
use coco_os.Base.Outcome.{ok, ◌>>=◌, Safe, Safe_bind, Safe_assert}
use coco_os.Config.{Config, total_events}
use coco_os.Task.{Tasks, modify}
use coco_os.Task.Events.{os_task_clear_wait_queue}
use coco_os.Event.{Events, event_create}
use coco_os.MsgQueue.{Msg, no_queues}
use coco_os.System.{Os, on_tasks}
use coco_os.System.Invariant.{few_events, IsSound, IsWell, IsOwn}
use coco_os.System.Messages.{os_msg_q_create}
use coco_os.System.Create.{TaskSpec, new_task, check_prio, create_queue, os_task_create}
use coco_os.System.NewTask.{IsFree, check_prio_lem}

module _ (cfg : Config) (sound : IsSound cfg) where
  -- There is one event more, and the id is its own.
  abbrev pub OneMore : Events → ℕ × Events → Type 0
  OneMore es (id, es') =
      (id ≡ es.n_events) × (es'.n_events ≡ es.n_events + 1) × (es'.n_events ≤ total_events cfg)

  pub event_create-OneMore :
      (es : Events)
      → es.n_events ≤ total_events cfg
      → 0 < total_events cfg
      → Safe (event_create cfg es) (OneMore es)
  unfolding event_create
  event_create-OneMore es le some_there = ground (arith, few_events cfg sound)

  -- The pool of a queue has two slots at least, and its size is a byte.
  abbrev pub IsPool : ℕ → Type 0
  IsPool n = (1 < n) × (n < 256)

  abbrev Queued : Os → ℕ × Os → Type 0
  Queued os (q, os') =
      IsWell cfg os'
      × IsOwn cfg (os'.queues.n_queues) q
      × (os'.running_tid ≡ os.running_tid)
      × (os'.tasks ≡ os.tasks)

  os_msg_q_create-Queued :
      (buffer : ℕ → Msg) (n size task_id : ℕ) (os : Os)
      → IsPool n
      → IsWell cfg os
      → Safe (os_msg_q_create cfg buffer n size task_id os) (Queued os)
  unfolding os_msg_q_create
  os_msg_q_create-Queued buffer n size task_id os pool w = elim (Bool-cases (no_queues cfg)) [
    | inl nothing ↦ rw nothing (w, inr (inr (ground (arith, nothing))), refl, refl)
    | inr there ↦ rw there (
        Safe_assert (ltb os.queues.n_queues cfg.max_queues) _ _ (λ room.
          Safe_bind (event_create cfg os.events) _ (OneMore os.events) _
            (event_create-OneMore os.events w.events_fit (ground (arith, there)))
            (λ (event, es) m. (
              record {
                tasks_fit = w.tasks_fit;
                current = w.current;
                own_queue = λ i hi. elim (w.own_queue i hi) [
                  | inl e ↦ inl e
                  | inr (inl h) ↦ inr (inl (omega arith))
                  | inr (inr z) ↦ inr (inr z)
                ];
                events_fit = m.2;
                queues_fit = ground (arith, room);
                valid = λ k hk. elim (Bool-cases (os.queues.n_queues == k)) [
                  | inl here ↦ rw here (record {
                    slots = pool.0;
                    byte = pool.1;
                    head_in = pool.0;
                    tail_in = omega arith;
                  })
                  | inr other ↦ rw other (w.valid k (ground (arith, other)))
                ];
                known = λ k hk. elim (Bool-cases (os.queues.n_queues == k)) [
                  | inl here ↦ rw here (omega (arith, m.0, m.1))
                  | inr other ↦ rw other (omega (arith, w.known k (ground (arith, other)), m.1))
                ];
                distinct = w.distinct;
              },
              inr (inl (omega arith)),
              refl,
              refl,
            ))))
  ]

  -- No task below `n` has the priority of the task at `n`.
  abbrev IsFresh : ℕ → Tasks → Type 0
  IsFresh n ts = (i : ℕ) → i < n → (ts.task_list i).prio ≢ (ts.task_list n).prio

  check_prio-Safe :
      (n prio : ℕ) (ts : Tasks)
      → n ≤ cfg.max_tasks
      → Safe (check_prio cfg n prio ts) (λ u. IsFree n prio ts)
  check_prio-Safe n prio ts le = elim (check_prio_lem cfg n prio ts le) [
    | inl (free, e) ↦ rw e free
    | inr (taken, e) ↦ rw e tt
  ]

  -- The last steps of `os_task_create`, with the queue `q`.
  finish :
      (n q data_ptr : ℕ) (os : Os)
      → IsWell cfg os
      → n ≡ os.tasks.n_tasks
      → n < cfg.max_tasks
      → IsOwn cfg os.queues.n_queues q
      → IsFresh n os.tasks
      → Safe {A = ℕ × Os}
          (on_tasks (modify cfg n (λ t. record t { msg_q = q; data_ptr = data_ptr })) os >>= λ os₃.
            on_tasks (os_task_clear_wait_queue cfg n) os₃ >>= λ os₄.
            ok (n, record os₄ { tasks = record (os₄.tasks) { n_tasks = (n + 1) % 256 } }))
          (λ r. IsWell cfg r.1)
  unfolding modify os_task_clear_wait_queue
  finish n q data_ptr os w e room own fresh =
      let small : (n + 1) % 256 ≡ n + 1 = omega (arith, sound.static.tasks) in
      rw (lt→ltb _ _ room, small)
        (record {
          tasks_fit = omega arith;
          current = elim (w.current) [ inl c ↦ inl c | inr c ↦ inr (omega arith) ];
          own_queue = λ i hi. ground (arith, own, w.own_queue i);
          events_fit = w.events_fit;
          queues_fit = w.queues_fit;
          valid = w.valid;
          known = w.known;
          distinct = λ i j lt hj. ground (arith, fresh i, w.distinct i j lt);
        })

  -- The first step, which sets the task behind the last of the table.
  begin-IsWell :
      (a : TaskSpec) (os : Os)
      → IsWell cfg os
      → os.tasks.n_tasks < cfg.max_tasks
      → IsFree os.tasks.n_tasks a.prio os.tasks
      → Safe (on_tasks (modify cfg os.tasks.n_tasks (new_task a os.tasks.n_tasks)) os) (λ os'.
        IsWell cfg os'
        × (os'.tasks.n_tasks ≡ os.tasks.n_tasks)
        × IsFresh os.tasks.n_tasks os'.tasks)
  unfolding modify
  begin-IsWell a os w room free = rw (lt→ltb _ _ room) (
    record {
      tasks_fit = w.tasks_fit;
      current = w.current;
      own_queue = λ i hi. ground (arith, w.own_queue i hi);
      events_fit = w.events_fit;
      queues_fit = w.queues_fit;
      valid = w.valid;
      known = w.known;
      distinct = λ i j lt hj. ground (arith, w.distinct i j lt);
    },
    refl,
    λ i hi. ground (arith, free i hi),
  )

  create_queue-Queued :
      (a : TaskSpec) (n : ℕ) (os : Os)
      → (a.pool_size ≡ 0) ⊎ IsPool a.pool_size
      → IsWell cfg os
      → Safe (create_queue cfg a n os) (Queued os)
  create_queue-Queued a n os (inl z) w = rw z (w, inl refl, refl, refl)
  create_queue-Queued a n os (inr pool) w =
      rw (lt→ltb 0 a.pool_size (omega (arith, pool.0)))
        (os_msg_q_create-Queued a.msg_pool a.pool_size a.msg_size n os pool w)

  -- Creating a task whose message pool, if it has one, has two slots or more.
  pub os_task_create-IsWell :
      (a : TaskSpec) (os : Os)
      → (a.pool_size ≡ 0) ⊎ IsPool a.pool_size
      → IsWell cfg os
      → Safe (os_task_create cfg a os) (λ r. IsWell cfg r.1)
  unfolding os_task_create
  os_task_create-IsWell a os pool w =
      let n = os.tasks.n_tasks in
      Safe_assert (os.running == 0) _ _ (λ h₀. Safe_assert (ltb n cfg.max_tasks) _ _ (λ h₁.
        Safe_assert (not (a.taskproc == 0)) _ _ (λ h₂.
          let room : n < cfg.max_tasks = ground (arith, h₁) in
          Safe_bind (check_prio cfg n a.prio os.tasks) _ (λ u. IsFree n a.prio os.tasks) _
            (check_prio-Safe n a.prio os.tasks w.tasks_fit)
            (λ u₁ free.
              Safe_bind (on_tasks (modify cfg n (new_task a n)) os) _ _ _
                (begin-IsWell a os w room free)
                (λ os₁ k₁.
                  Safe_bind (create_queue cfg a n os₁) _ (Queued os₁) _
                    (create_queue-Queued a n os₁ pool k₁.0)
                    (λ (q, os₂) k₂.
                      finish n q a.data_ptr os₂ k₂.0 (sym (ap (λ ts. ts.n_tasks) k₂.3 ∙ k₁.1)) room
                        k₂.1 (subst (IsFresh n) (sym k₂.3) k₁.2)))))))
