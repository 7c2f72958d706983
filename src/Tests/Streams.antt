-- ===== src/Tests/Streams.antt =====
-- Sequences of posts and receives on one queue, of ticks of one clock, of schedules, and of
-- semaphores that are created.
use coco_os.Base.{◌≤◌, ◌<◌, ◌⊎◌, ◌+◌, refl, arith, ◌≡◌, [], ◌∷◌}
use coco_os.Base.Outcome.{assertion, halt, ok, Returns}
use coco_os.MsgQueue.{OsQueue}
use coco_os.MsgQueue.Span.{IsQueue, contents}
use coco_os.MsgQueue.Stream.{post, receive, transfers, list_transfers, transfers-list_transfers}
use coco_os.Kernel.{os_sub_n_tick}
use coco_os.Kernel.Clocks.Single.{sub_tick_times, AgreeBut, os_sub_n_tick-sub_tick_times}
use coco_os.Event.Creation.{event_creates, AreNew, event_creates_lem}
use coco_os.Sem.Creation.{sem_creates, AreCreated, sem_creates_lem}
use coco_os.Kernel.Schedule.Fair.{KeepsReady, ComesBy, os_schedule-ComesBy}
use coco_os.System.{Os}
use coco_os.System.Invariant.{IsSound, IsWell}
use coco_os.Kernel.Macros.{os_yield}
use coco_os.Kernel.Macros.Waits.{yield_in_table}
use coco_os.Kernel.Macros.Safety.{os_yield-Frees}
use coco_os.Base.Outcome.{Result}
use coco_os.Base.{ℕ, inl, inr}
use coco_os.Task.{ready}
use coco_os.Tests.Data.{task, small, queue, message}
use coco_os.Tests.Kernel.{waiting_os, round_robin, pool}

queue-IsQueue : IsQueue queue
queue-IsQueue = omega arith

transfers-list_transfers_example :
    Returns
      (transfers
        (receive (message 0 0 0) ∷ post (message 30 0 0) ∷ post (message 40 0 0) ∷ [])
        queue)
      (λ (answers, q').
        (answers
          ≡ (list_transfers 4
              (receive (message 0 0 0) ∷ post (message 30 0 0) ∷ post (message 40 0 0) ∷ [])
              (contents queue)).0)
        × (contents q'
            ≡ (list_transfers 4
                (receive (message 0 0 0) ∷ post (message 30 0 0) ∷ post (message 40 0 0) ∷ [])
                (contents queue)).1)
        × IsQueue q')
transfers-list_transfers_example =
    transfers-list_transfers
      (receive (message 0 0 0) ∷ post (message 30 0 0) ∷ post (message 40 0 0) ∷ []) queue
      queue-IsQueue

-- Two messages that are not delayed.
abbrev plain : OsQueue
plain = record queue { list = λ i. message i 0 0 }

os_sub_n_tick-sub_tick_times_example :
    Returns
      (os_sub_n_tick small 1 3 waiting_os)
      (λ a. Returns (sub_tick_times small 1 3 waiting_os) (AgreeBut small 1 waiting_os a))
os_sub_n_tick-sub_tick_times_example =
    os_sub_n_tick-sub_tick_times small 1 (omega arith) 3 waiting_os (omega arith) (omega arith)

-- Three ready tasks.
abbrev all_ready : Os
all_ready = record waiting_os {
  tasks = record { task_list = λ i. task ready (i + 1); n_tasks = 3; last_running_task = 255 };
}

round_robin-IsSound : IsSound round_robin
round_robin-IsSound = record {
  static = record {
    tasks = omega arith;
    queues = omega arith;
    semaphores = omega arith;
    events = omega arith;
  };
  roomy = λ e h. omega arith;
}

all_ready-IsWell : IsWell round_robin all_ready
all_ready-IsWell = record {
  tasks_fit = omega arith;
  current = inr (omega arith);
  own_queue = λ i hi. inl refl;
  events_fit = omega arith;
  queues_fit = omega arith;
  valid = λ k hk. absurd (omega arith);
  known = λ k hk. absurd (omega arith);
  distinct = λ i j lt hj. omega arith;
}

-- Each task yields on line 10.
abbrev yielding : ℕ → Os → Result Os
yielding taskproc = os_yield round_robin 10

yielding-KeepsReady : KeepsReady round_robin yielding ok 2
yielding-KeepsReady os w runs r =
    let e = yield_in_table round_robin 10 os (omega (arith, w.tasks_fit)) in
    let f = os_yield-Frees round_robin round_robin-IsSound 10 os w runs in
    rw e ((rw e at f).0, refl, refl, ground (arith, r))

os_schedule-ComesBy_example : ComesBy round_robin yielding ok 2 3 all_ready
os_schedule-ComesBy_example =
    os_schedule-ComesBy round_robin yielding ok 2 (round_robin-IsSound.static) refl
      yielding-KeepsReady all_ready all_ready-IsWell (omega arith) refl

-- Two semaphores more, of four.
sem_creates_lem_example :
    ((4 ≤ 4)
      × Returns
          (sem_creates small ((1, 1) ∷ (5, 0) ∷ []) pool)
          (AreCreated small ((1, 1) ∷ (5, 0) ∷ []) pool))
    ⊎ ((4 < 4) × (sem_creates small ((1, 1) ∷ (5, 0) ∷ []) pool ≡ halt assertion))
sem_creates_lem_example =
    sem_creates_lem small (omega arith) (omega arith) ((1, 1) ∷ (5, 0) ∷ []) pool (omega arith)

-- Three events, in a table of ten with none yet.
event_creates_lem_example :
    ((3 ≤ 10)
      × Returns (event_creates small 3 (waiting_os.events)) (AreNew small 3 (waiting_os.events)))
    ⊎ ((10 < 3) × (event_creates small 3 (waiting_os.events) ≡ halt assertion))
event_creates_lem_example =
    event_creates_lem small (omega arith) (omega arith) 3 (waiting_os.events) (omega arith)
