-- ===== src/System/Tick.antt =====
-- os_task/src/os_task.c: `task_tick`.
pub mod Safety
pub mod Frame
use coco_os.Base.{ℕ, ◌+◌, ◌-◌, ◌%◌, ◌||◌, not}
use coco_os.Base.Tests.{leb, ◌==◌, if◌then◌else◌}
use coco_os.Base.Arrays.{for_range}
use coco_os.Base.Outcome.{Result, ok, ◌>>=◌}
use coco_os.Config.{Config, no_queue}
use coco_os.Task.{
  Tasks, is, waiting_time, waiting_event_timeout, waiting_sem, task_at, modify, task_ready_set,
}
use coco_os.Task.Events.{os_task_clear_wait_queue}
use coco_os.System.{Os, on_tasks}
use coco_os.System.Messages.{os_msg_q_tick}

abbrev pub u32_mod : ℕ
u32_mod = 4294967296

module _ (cfg : Config) where
  -- A timer that has run out.
  abbrev expire : ℕ → Tasks → Result Tasks
  expire i ts = do
    t ← task_at cfg i ts
    ts₁ ← modify cfg i (λ t. record t { time = 0 }) ts
    ts₂ ← if is t.state waiting_event_timeout then os_task_clear_wait_queue cfg i ts₁ else ok ts₁
    task_ready_set cfg i ts₂

  -- The first half of a round: the time of task `i`.
  unfoldable pub tick_time : ℕ → ℕ → ℕ → Tasks → Result Tasks
  tick_time clock_id tick_size i ts = do
    t ← task_at cfg i ts
    if is t.state waiting_time || is t.state waiting_event_timeout
        then (if t.clock_id == clock_id
            then (if leb t.time tick_size
                then expire i ts
                else modify cfg i (λ t. record t { time = t.time - tick_size }) ts)
            else ok ts)
        else (if is t.state waiting_sem
            then modify cfg i (λ t. record t { time = (t.time + 1) % u32_mod }) ts
            else ok ts)

  -- The second half: its message queue.
  unfoldable pub tick_queue : ℕ → ℕ → Os → Result Os
  tick_queue clock_id i os =
      if clock_id == 0
      then (task_at cfg i os.tasks >>= λ t.
          if not (t.msg_q == no_queue) then os_msg_q_tick cfg t.msg_q os else ok os)
      else ok os

  unfoldable pub task_tick : ℕ → ℕ → Os → Result Os
  task_tick clock_id tick_size os =
      for_range os.tasks.n_tasks 0
        (λ i os. on_tasks (tick_time clock_id tick_size i) os >>= tick_queue clock_id i) os
