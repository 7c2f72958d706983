-- ===== src/System/Tick/Safety.antt =====
-- os_task/src/os_task.c: `task_tick` keeps the state of the kernel well-formed.
use coco_os.Base.{ℕ, ◌<◌, ◌≤◌, arith, inl, inr}
use coco_os.Base.Tests.{◌==◌, lt→ltb, Bool-cases}
use coco_os.Base.Arrays.{for_range_safe}
use coco_os.Base.Outcome.{Result, ◌>>=◌, Safe, Safe_mono, Safe_of_Returns}
use coco_os.Config.{Config, no_queue}
use coco_os.Task.{Tasks, task_at, modify, task_ready_set}
use coco_os.Task.Events.{os_task_clear_wait_queue}
use coco_os.Task.Shape.{SameShape, SameShape-of_each}
use coco_os.System.{Os, on_tasks}
use coco_os.System.Invariant.{
  IsSound, IsWell, Keeps, Keeps-refl, Keeps-bind, Keeps-trans, on_tasks-Keeps,
}
use coco_os.System.Messages.TickSafety.{os_msg_q_tick-Keeps, no_queues-tick}
use coco_os.System.Tick.{tick_time, tick_queue, task_tick}

module _ (cfg : Config) where
  tick_time-SameShape :
      (clock_id n i : ℕ) (ts : Tasks)
      → i < ts.n_tasks
      → ts.n_tasks ≤ cfg.max_tasks
      → Safe (tick_time cfg clock_id n i ts) (SameShape ts)
  unfolding tick_time task_at modify task_ready_set os_task_clear_wait_queue
  tick_time-SameShape clock_id n i ts h le = SameShape-of_each _ ts (λ j. ground arith)

  module _ (sound : IsSound cfg) where
    tick_queue-Keeps :
        (clock_id i : ℕ) (os : Os)
        → i < os.tasks.n_tasks
        → IsWell cfg os
        → Safe (tick_queue cfg clock_id i os) (Keeps cfg os)
    unfolding tick_queue task_at
    tick_queue-Keeps clock_id i os h w =
        let t = os.tasks.task_list i in
        elim (Bool-cases (clock_id == 0)) [
          | inr sub ↦ rw sub (Keeps-refl cfg os w)
          | inl main ↦ elim (Bool-cases (t.msg_q == no_queue)) [
            | inl none_there ↦
                rw (main, lt→ltb i cfg.max_tasks (omega (arith, w.tasks_fit)), none_there)
                  (Keeps-refl cfg os w)
            | inr there ↦
                rw (main, lt→ltb i cfg.max_tasks (omega (arith, w.tasks_fit)), there)
                  (elim (w.own_queue i h) [
                    | inl nothing ↦ absurd (ground (arith, nothing, there))
                    | inr (inl h) ↦
                        Safe_of_Returns _ (Keeps cfg os)
                          (os_msg_q_tick-Keeps cfg sound t.msg_q os w h)
                    | inr (inr z) ↦ rw (no_queues-tick cfg t.msg_q os z) (Keeps-refl cfg os w)
                  ])
          ]
        ]

    pub task_tick-Keeps :
        (clock_id n : ℕ) (os : Os)
        → IsWell cfg os
        → Safe (task_tick cfg clock_id n os) (Keeps cfg os)
    unfolding task_tick
    task_tick-Keeps clock_id n os w =
        let body : ℕ → Os → Result Os =
          λ i os. on_tasks (tick_time cfg clock_id n i) os >>= tick_queue cfg clock_id i in
        for_range_safe (λ i. Keeps cfg os) body os.tasks.n_tasks
          (λ i s h k.
            Safe_mono (body i s) _ _
              (Keeps-bind cfg s (on_tasks (tick_time cfg clock_id n i) s)
                (tick_queue cfg clock_id i)
                (on_tasks-Keeps cfg (tick_time cfg clock_id n i) s k.0
                  (tick_time-SameShape clock_id n i s.tasks (omega (arith, k.1.1)) k.0.tasks_fit))
                (λ s' k'. tick_queue-Keeps clock_id i s' (omega (arith, k.1.1, k'.1.1)) k'.0))
              (Keeps-trans cfg os s k))
          os.tasks.n_tasks 0 os (omega arith) (Keeps-refl cfg os w)
