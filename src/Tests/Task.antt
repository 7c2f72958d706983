-- ===== src/Tests/Task.antt =====
-- The scheduler and the events, on the small table.
use coco_os.Base.{false, ℕ, ◌≡◌, ◌↔◌, ◌<◌, ◌≤◌, ◌+◌, ◌%◌, ◌/◌, refl, arith, true, [], ◌∷◌}
use coco_os.Base.{List, not, ◌||◌}
use coco_os.Base.Bits.{has_bit-zero, has_bit, all_below, all_below_sound}
use coco_os.Task.Events.{no_byte_set}
use coco_os.Task.Events.Signaled.{Signals, os_task_signal_event-Signals}
use coco_os.Task.Events.{os_task_signal_event}
use coco_os.Task.Events.WaitAll.{Covers, mem}
use coco_os.Base.Outcome.{Returns, ok}
use coco_os.Config.{queue_size}
use coco_os.Config.Sizes.{queue_size_iff}
use coco_os.Task.{ready, waiting_event}
use coco_os.Task.Schedule.{highest_prio_ready_task, next_ready_task}
use coco_os.Task.Schedule.Priority.{IsHighestReady, highest_prio_ready_task_lem}
use coco_os.Task.Schedule.RoundRobin.{IsNextReady, next_ready_task_lem}
use coco_os.Task.Events.{awaits}
use coco_os.Task.Events.WaitAll.{
  WaitsAll, signal_events, signal_events-ready, signal_events-blocked,
}
use coco_os.Task.{is}
use coco_os.Base.Outcome.{◌>>=◌}
use coco_os.Task.Events.WaitThenSignal.{wait_events, wait_events-signal_events}
use coco_os.Tests.Data.{small, table, waiter}

-- 17 events need three bytes, and get two.
queue_size_iff_example : ((e : ℕ) → e < 17 → e / 8 < queue_size 17) ↔ (17 / 9 + 17 % 9 ≤ 8)
queue_size_iff_example = queue_size_iff 17

highest_prio_ready_task_example :
    Returns (highest_prio_ready_task small table) (IsHighestReady table)
highest_prio_ready_task_example =
    highest_prio_ready_task_lem small table (omega arith) (omega arith)

next_ready_task_example :
    (r : ℕ) × (next_ready_task small table ≡ ok (record table { last_running_task = r }))
    × IsNextReady table r
next_ready_task_example = next_ready_task_lem small table (omega arith) (omega arith) (omega arith)

waiter-WaitsAll : WaitsAll small waiter
unfolding no_byte_set
waiter-WaitsAll = record { waiting = refl; all = refl; bytes = λ j. ground arith; some_left = refl }

abbrev signals : List ℕ
signals = 2 ∷ 5 ∷ 1 ∷ []

covered : all_below 16 (λ f. not (awaits waiter f) || mem f signals) ≡ true
unfolding all_below has_bit
covered = refl

waiter-Covers : Covers small signals waiter
waiter-Covers f hf a = ground (
  arith,
  all_below_sound (λ f. not (awaits waiter f) || mem f signals) 16 f (omega arith) covered,
)

signal_events-ready_example :
    Returns (signal_events small signals table) (λ ts. (ts.task_list 0).state ≡ ready)
signal_events-ready_example =
    signal_events-ready small signals table 0 (omega arith) (omega arith) (omega arith)
      waiter-WaitsAll waiter-Covers

signal_events-blocked_example :
    Returns (signal_events small (2 ∷ 5 ∷ []) table) (λ ts. (ts.task_list 0).state ≡ waiting_event)
unfolding has_bit
signal_events-blocked_example =
    signal_events-blocked small (2 ∷ 5 ∷ []) table 0 (omega arith) (omega arith) (omega arith)
      waiter-WaitsAll 1 (omega arith) refl refl

-- The ready task waits for both of the events 3 and 9 with a timeout of 20 ticks.
wait_events-signal_events_example :
    Returns
      (wait_events small 2 20 false (3 ∷ 9 ∷ []) table >>= signal_events small (9 ∷ 4 ∷ 3 ∷ []))
      (λ ts. is (ts.task_list 2).state ready ≡ true)
unfolding has_bit
wait_events-signal_events_example =
    wait_events-signal_events small 2 20 false 3 (9 ∷ []) (9 ∷ 4 ∷ 3 ∷ []) table (omega arith)
      (omega arith) (omega arith, (omega arith, tt)) (omega arith, (omega arith, (omega arith, tt)))
      (λ j. omega arith) (λ f hf. has_bit-zero (f % 8))

-- The event 1 is signaled to a task that awaits it and another, to a killed one and to a ready one.
os_task_signal_event-Signals_example : Returns (os_task_signal_event small 1 table) (λ ts.
    (ts.n_tasks ≡ 3)
    × (ts.last_running_task ≡ 2)
    × ((j : ℕ) → j < 3 → Signals small 1 (table.task_list j) (ts.task_list j))
    × ((j : ℕ) → 3 ≤ j → ts.task_list j ≡ table.task_list j))
os_task_signal_event-Signals_example =
    os_task_signal_event-Signals small 1 table (omega arith) (omega arith) (λ j hj i. ground arith)
