-- ===== src/Task.antt =====
-- os_task/src/os_task.c and os_task/include/os_task.h: the task control blocks, and the operations that set one of them.
-- `task_list` is a function of the index; each access is checked against N_TASKS. A pointer, to a
-- task procedure or to a task's data, is a number, 0 for NULL.
pub mod Loop
pub mod Fields
pub mod Events
pub mod Schedule
pub mod Semaphores
pub mod Suspend
pub mod Shape
pub mod Frame
use coco_os.Base.{ℕ, zero, suc, ◌≡◌, ◌≢◌, ◌∙◌, sym, arith, Bool, true, false, ◌&&◌, not}
use coco_os.Base.Tests.{ltb, ◌==◌, if◌then◌else◌}
use coco_os.Base.Outcome.{Result, ok, os_assert, in_range, ◌>>=◌, ◌>>◌}
use coco_os.Base.Arrays.{update, for_range}
use coco_os.Config.{Config, event_queue_size, no_tid, no_sem}

pub data TaskState : Type 0 where
  suspended waiting_sem waiting_time waiting_event waiting_event_timeout : TaskState
  ready running killed : TaskState

-- The value of an enumerator, which is also compared with an internal state.
abbrev pub code : TaskState → ℕ
code suspended = 0
code waiting_sem = 1
code waiting_time = 2
code waiting_event = 3
code waiting_event_timeout = 4
code ready = 5
code running = 6
code killed = 7

abbrev pub is : TaskState → TaskState → Bool
is s t = code s == code t

is_refl : (t : TaskState) → is t t ≡ true
is_refl t = ground arith

pub eq→is : (s t : TaskState) → s ≡ t → is s t ≡ true
eq→is s t e = rw e (is_refl t)

pub is→eq : (s t : TaskState) → is s t ≡ true → s ≡ t
is→eq s t h = ground arith

pub not_is→ne : (s t : TaskState) → is s t ≡ false → s ≢ t
not_is→ne s t h e = cc (sym h ∙ eq→is s t e)

pub record Tcb : Type 0 where
  pub taskproc : ℕ
  pub state : TaskState
  pub saved_state : TaskState
  pub internal_state : ℕ  -- uint16
  pub time : ℕ  -- uint32
  pub tid : ℕ
  pub prio : ℕ
  pub semaphore : ℕ  -- int16, as its bit pattern
  pub msg_q : ℕ
  pub wait_q : ℕ
  pub msg_change_event : ℕ
  pub msg_result : ℕ
  pub wait_single_event : Bool
  pub clock_id : ℕ
  pub event_queue : ℕ → ℕ  -- the bytes of `eventList`
  pub data_ptr : ℕ

-- The static variables of the file.
pub record Tasks : Type 0 where
  pub task_list : ℕ → Tcb
  pub n_tasks : ℕ
  pub last_running_task : ℕ

-- `do { --j; q[ j ] = v; } while ( j != 0 );` from `j = n`
pub fill : ℕ → ℕ → (ℕ → ℕ) → ℕ → ℕ
fill zero v q = q
fill (suc n) v q = fill n v (update q n v)

module _ (cfg : Config) where
  -- `task_list[ tid ]`
  unfoldable pub task_at : ℕ → Tasks → Result Tcb
  task_at tid ts = do in_range (ltb tid cfg.max_tasks); ok (ts.task_list tid)

  -- assignments through `task_list[ tid ]`
  unfoldable pub modify : ℕ → (Tcb → Tcb) → Tasks → Result Tasks
  modify tid f ts = do
    in_range (ltb tid cfg.max_tasks)
    ok (record ts { task_list = update ts.task_list tid (f (ts.task_list tid)) })

  abbrev pub reset : Tcb → Tcb
  reset t = record t {
    clock_id = 0xff;
    internal_state = 0xff;
    msg_q = 0;
    wait_q = 0;
    msg_change_event = 0;
    msg_result = 0;
    prio = 0;
    saved_state = suspended;
    semaphore = no_sem;
    state = suspended;
    taskproc = 0;
    tid = no_tid;
    time = 0;
    wait_single_event = false;
    event_queue = fill (event_queue_size cfg) 0xff t.event_queue;
    data_ptr = 0;
  }

  unfoldable pub os_task_init : Tasks → Result Tasks
  unfolding modify fill
  os_task_init ts =
      for_range cfg.max_tasks 0 (λ i. modify i reset)
        (record ts { last_running_task = 0; n_tasks = 0 })

  pub task_state_get : ℕ → Tasks → Result TaskState
  task_state_get tid ts = do os_assert (ltb tid ts.n_tasks); t ← task_at tid ts; ok t.state

  pub os_task_kill : ℕ → Tasks → Result Tasks
  os_task_kill tid ts = do
    os_assert (ltb tid ts.n_tasks)
    modify tid (λ t. record t { state = killed }) ts

  -- also `os_task_ready_set`, which only wraps it
  unfoldable pub task_ready_set : ℕ → Tasks → Result Tasks
  task_ready_set tid ts = do
    os_assert (ltb tid ts.n_tasks)
    modify tid (λ t. record t { state = ready }) ts

  pub task_suspended_set : ℕ → Tasks → Result Tasks
  task_suspended_set tid ts = modify tid (λ t. record t { state = suspended }) ts

  pub os_task_suspend : ℕ → Tasks → Result Tasks
  unfolding task_at modify task_suspended_set
  os_task_suspend tid ts = do
    os_assert (ltb tid ts.n_tasks)
    t ← task_at tid ts
    if not (is t.state killed) && not (is t.state suspended)
        then (if is t.state waiting_sem
            then modify tid (λ t. record t { saved_state = ready; internal_state = 0 }) ts
            else modify tid (λ t. record t { saved_state = t.state }) ts)
          >>= task_suspended_set tid
        else ok ts

  pub os_task_resume : ℕ → Tasks → Result Tasks
  unfolding task_at modify
  os_task_resume tid ts = do
    os_assert (ltb tid ts.n_tasks)
    t ← task_at tid ts
    if is t.state suspended then modify tid (λ t. record t { state = t.saved_state }) ts else ok ts

  pub os_task_prio_get : ℕ → Tasks → Result ℕ
  os_task_prio_get tid ts = do os_assert (ltb tid ts.n_tasks); t ← task_at tid ts; ok t.prio

  pub os_task_wait_time_set : ℕ → ℕ → ℕ → Tasks → Result Tasks
  os_task_wait_time_set tid id time ts = do
    os_assert (ltb tid ts.n_tasks)
    os_assert (ltb 0 time)
    ts₁ ← modify tid (λ t. record t { clock_id = id; time = time }) ts
    modify tid (λ t. record t { state = waiting_time }) ts₁

  unfoldable pub task_wait_sem_set : ℕ → ℕ → Tasks → Result Tasks
  task_wait_sem_set tid sem ts = do
    os_assert (ltb tid ts.n_tasks)
    modify tid (λ t. record t { time = 0; state = waiting_sem; semaphore = sem }) ts
