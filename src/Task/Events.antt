-- ===== src/Task/Events.antt =====
-- os_task/src/os_task.c: a task waits for events, and an event is signaled to all tasks.
pub mod Signal
pub mod Signaled
pub mod Waiting
pub mod WaitAll
pub mod WaitAny
pub mod Park
pub mod WaitThenSignal
pub mod Frame
use coco_os.Base.{ℕ, zero, suc, ◌/◌, ◌%◌, Bool, true, false, ◌&&◌, ◌||◌, not}
use coco_os.Base.Tests.{ltb, ◌==◌, if◌then◌else◌}
use coco_os.Base.Bits.{set_bit, clear_bit, has_bit}
use coco_os.Base.Arrays.{update, for_range}
use coco_os.Base.Outcome.{Result, ok, os_assert, in_range, ◌>>=◌, ◌>>◌}
use coco_os.Config.{Config, event_queue_size}
use coco_os.Task.{
  Tcb, Tasks, TaskState, is, waiting_event, waiting_event_timeout, task_at, modify, fill,
  task_ready_set, os_task_wait_time_set,
}

-- The scan of `os_task_wait_queue_empty`, from the last byte down.
unfoldable pub no_byte_set : ℕ → (ℕ → ℕ) → Bool
no_byte_set zero q = true
no_byte_set (suc n) q = let rest = no_byte_set n q in if q n == 0 then rest else false

-- The states in which a signal is taken.
abbrev pub is_waiting_event : TaskState → Bool
is_waiting_event s = is s waiting_event || is s waiting_event_timeout

-- `eventId / 8` and `eventId & 0x07`
abbrev pub event_index : ℕ → ℕ
event_index e = e / 8

abbrev pub event_shift : ℕ → ℕ
event_shift e = e % 8

-- `eventList[ index ] & (1 << shift)`
abbrev pub awaits : Tcb → ℕ → Bool
awaits t e = has_bit (t.event_queue (event_index e)) (event_shift e)

abbrev pub add_event : ℕ → Tcb → Tcb
add_event e t = record t {
  event_queue =
      update t.event_queue (event_index e)
        (set_bit (t.event_queue (event_index e)) (event_shift e));
}

abbrev pub drop_event : ℕ → Tcb → Tcb
drop_event e t = record t {
  event_queue =
      update t.event_queue (event_index e)
        (clear_bit (t.event_queue (event_index e)) (event_shift e));
}

module _ (cfg : Config) where
  abbrev pub clear_wait_queue : Tcb → Tcb
  clear_wait_queue t = record t {
    wait_single_event = false;
    event_queue = fill (event_queue_size cfg) 0 t.event_queue;
  }

  unfoldable pub os_task_clear_wait_queue : ℕ → Tasks → Result Tasks
  unfolding modify
  os_task_clear_wait_queue tid = modify cfg tid clear_wait_queue

  pub os_task_wait_queue_empty : ℕ → Tasks → Result Bool
  unfolding task_at
  os_task_wait_queue_empty tid ts = do
    t ← task_at cfg tid ts
    ok (no_byte_set (event_queue_size cfg) t.event_queue)

  unfoldable pub os_task_wait_event : ℕ → ℕ → Bool → ℕ → Tasks → Result Tasks
  unfolding modify os_task_wait_time_set
  os_task_wait_event tid event single timeout ts = do
    os_assert (ltb tid ts.n_tasks)
    in_range (ltb (event_index event) (event_queue_size cfg))
    ts₁ ← modify cfg tid (add_event event) ts
    ts₂ ← modify cfg tid (λ t. record t { wait_single_event = single }) ts₁
    if not (timeout == 0)
        then os_task_wait_time_set cfg tid 0 timeout ts₂
          >>= modify cfg tid (λ t. record t { state = waiting_event_timeout })
        else modify cfg tid (λ t. record t { state = waiting_event }) ts₂

  -- `os_task_clear_wait_queue( i ); task_ready_set( i );`
  abbrev wake : ℕ → Tasks → Result Tasks
  wake i ts = os_task_clear_wait_queue i ts >>= task_ready_set cfg i

  -- What a task that awaited the event does once its bit is cleared.
  abbrev take_signal : ℕ → Tasks → Result Tasks
  take_signal i ts = do
    t ← task_at cfg i ts
    empty ← os_task_wait_queue_empty i ts
    if t.wait_single_event || empty then wake i ts else ok ts

  -- One round of the loop of `os_task_signal_event`.
  pub signal_task : ℕ → ℕ → Tasks → Result Tasks
  unfolding task_at modify os_task_clear_wait_queue task_ready_set os_task_wait_queue_empty
  signal_task event i ts = do
    t ← task_at cfg i ts
    in_range (ltb (event_index event) (event_queue_size cfg))
    if awaits t event && is_waiting_event t.state
        then modify cfg i (drop_event event) ts >>= take_signal i
        else ok ts

  pub os_task_signal_event : ℕ → Tasks → Result Tasks
  os_task_signal_event event ts = for_range ts.n_tasks 0 (signal_task event) ts
