-- ===== src/Kernel/Safety.antt =====
-- os_kernel/src/os_kernel.c: `os_init` makes the state of the kernel well-formed, and the choice of
-- the next task keeps it so.
use coco_os.Base.{ℕ, ◌+◌, ◌<◌, ◌≡◌, ◌⊎◌, refl, false, arith, inl, inr}
use coco_os.Base.Tests.{Bool-cases}
use coco_os.Base.Arrays.{for_range_safe}
use coco_os.Base.Outcome.{ok, Safe, Safe_bind, Returns-elim}
use coco_os.Config.{Config, no_tid}
use coco_os.Task.{Tasks, modify, reset, os_task_init}
use coco_os.Task.Schedule.{highest_prio_ready_task}
use coco_os.Task.Schedule.Priority.{IsHighestReady, highest_prio_ready_task_lem}
use coco_os.Task.Schedule.RoundRobin.{wrapped, next_ready_task-IsFirstReady}
use coco_os.Event.{os_event_init}
use coco_os.MsgQueue.{os_msg_q_init}
use coco_os.System.{Os}
use coco_os.System.Invariant.{IsSound, IsWell}
use coco_os.Kernel.{os_init, pick}

module _ (cfg : Config) where
  -- Static storage before the start: the counters of queues and events are 0.
  abbrev pub IsZeroed : Os → Type 0
  IsZeroed os = (os.queues.n_queues ≡ 0) × (os.events.n_events ≡ 0)

  os_task_init-Safe : (ts : Tasks) → Safe (os_task_init cfg ts) (λ ts'. ts'.n_tasks ≡ 0)
  unfolding os_task_init modify
  os_task_init-Safe ts =
      for_range_safe (λ i ts'. ts'.n_tasks ≡ 0) (λ i. modify cfg i (reset cfg)) cfg.max_tasks
        (λ i ts' h e. ground (arith, e)) cfg.max_tasks 0 _ (omega arith) refl

  os_event_init-zero : (os : Os) → IsZeroed os → (os_event_init cfg os.events).n_events ≡ 0
  unfolding os_event_init
  os_event_init-zero os z = ground (arith, z.1)

  os_msg_q_init-zero : (os : Os) → IsZeroed os → (os_msg_q_init cfg os.queues).n_queues ≡ 0
  unfolding os_msg_q_init
  os_msg_q_init-zero os z = ground (arith, z.0)

  pub os_init-IsWell : (os : Os) → IsZeroed os → Safe (os_init cfg os) (IsWell cfg)
  unfolding os_init
  os_init-IsWell os z =
      Safe_bind (os_task_init cfg os.tasks) _ (λ ts. ts.n_tasks ≡ 0) (IsWell cfg)
        (os_task_init-Safe os.tasks)
        (λ ts e.
          let qz = os_msg_q_init-zero os z in
          record {
            tasks_fit = omega (arith, e);
            current = inl refl;
            own_queue = λ i hi. absurd (omega (arith, e));
            events_fit = omega (arith, os_event_init-zero os z);
            queues_fit = omega (arith, qz);
            valid = λ k hk. absurd (omega (arith, qz));
            known = λ k hk. absurd (omega (arith, qz));
            distinct = λ i j lt hj. absurd (omega (arith, e));
          })

  module _ (sound : IsSound cfg) where
    -- What a schedule may leave: another task runs, or none.
    moved-IsWell :
        (os : Os) (last tid : ℕ)
        → IsWell cfg os
        → (tid ≡ no_tid) ⊎ (tid < os.tasks.n_tasks)
        → IsWell cfg (record os {
          tasks = record (os.tasks) { last_running_task = last };
          running_tid = tid;
        })
    moved-IsWell os last tid w h = record {
      tasks_fit = w.tasks_fit;
      current = h;
      own_queue = w.own_queue;
      events_fit = w.events_fit;
      queues_fit = w.queues_fit;
      valid = w.valid;
      known = w.known;
      distinct = w.distinct;
    }

    wrapped_in : (n i : ℕ) → 0 < n → i < n + n → wrapped n i < n
    wrapped_in n i pos h = ground arith

    pub pick-IsWell :
        (os : Os)
        → IsWell cfg os
        → (0 < os.tasks.n_tasks) ⊎ (cfg.round_robin ≡ false)
        → Safe
            (pick cfg (record os { running_tid = no_tid }))
            (λ os'. IsWell cfg os' × (os'.tasks.n_tasks ≡ os.tasks.n_tasks))
    unfolding pick
    pick-IsWell os w some_task = elim (Bool-cases cfg.round_robin) [
      | inl turns ↦
          let pos : 0 < os.tasks.n_tasks = ground (arith, some_task, turns) in
          let (tid, e, h) =
            next_ready_task-IsFirstReady cfg os.tasks sound.static w.tasks_fit pos in
          let picked : pick cfg (record os { running_tid = no_tid })
              ≡ ok (record os {
                running_tid = tid;
                tasks = record (os.tasks) { last_running_task = tid };
              }) =
            ground (arith, turns, e) in
          rw picked (
            moved-IsWell os tid tid w (elim h [
              | inl (none_ready, all) ↦ inl none_ready
              | inr (d, hd, e, r, all) ↦ inr (rw e (wrapped_in _ _ pos (ground (arith, hd, pos))))
            ]),
            refl,
          )
      | inr prio ↦
          let (tid, e, h) =
            Returns-elim (highest_prio_ready_task cfg os.tasks) (IsHighestReady os.tasks)
              (highest_prio_ready_task_lem cfg os.tasks sound.static w.tasks_fit) in
          let picked : pick cfg (record os { running_tid = no_tid })
              ≡ ok (record os { running_tid = tid }) =
            ground (arith, prio, e) in
          rw picked (
            moved-IsWell os os.tasks.last_running_task tid w (elim h [
              | inl (none_ready, all) ↦ inl none_ready
              | inr (below, r₁, r₂, r₃) ↦ inr below
            ]),
            refl,
          )
    ]
