-- ===== src/Tests/Exchange.antt =====
-- Two tasks, the first of which has a message queue: each of them waits for the other.
use coco_os.Base.{◌+◌, ◌/◌, ◌<◌, ◌≡◌, ◌≢◌, refl, arith, inl, [], ◌∷◌, true, false}
use coco_os.Base.Arrays.{for_range}
use coco_os.Base.Lists.{length}
use coco_os.Base.Outcome.{Returns}
use mathlib.Core.Option.{none, some}
use coco_os.Config.{no_tid}
use coco_os.Task.{os_task_init, modify, task_at, ready}
use coco_os.Task.Events.{os_task_clear_wait_queue}
use coco_os.Sem.{os_sem_init}
use coco_os.Event.{os_event_init, event_create}
use coco_os.MsgQueue.{Msg, OsQueue, os_msg_q_init, os_msg_q_find, find_from, set_queue}
use coco_os.MsgQueue.Span.{span, window}
use coco_os.MsgQueue.Receive.{deliver}
use coco_os.System.{Os}
use coco_os.System.Create.{TaskSpec, check_prio, os_task_create}
use coco_os.System.Messages.{os_msg_q_create}
use coco_os.System.Messages.Safety.{set_queue-Keeps}
use coco_os.System.Invariant.{IsWell}
use coco_os.Kernel.{os_init}
use coco_os.Kernel.Calls.{create_task, call, Reachable, step}
use coco_os.Kernel.Calls.Safety.{Reachable-IsWell}
use coco_os.Kernel.Macros.Messages.{os_msg_q_post, post_resume, os_msg_q_receive, receive_resume}
use coco_os.Kernel.Macros.Messages.Handover.{
  run, run-IsWell, queue_of, contents_of, size_of, event_of,
}
use coco_os.Kernel.Macros.Messages.Rendezvous.{sent, Done}
use coco_os.Kernel.Macros.Messages.Exchange.{receive-post-receive, post-receive-post}
use coco_os.Tests.Data.{small, message}
use coco_os.Tests.Calls.{small-IsSound, value, created, created-Reachable}

abbrev sender : TaskSpec
sender = record {
  taskproc = 2;
  data_ptr = 0;
  prio = 4;
  msg_pool = λ i. message 0 0 0;
  pool_size = 0;
  msg_size = 0;
}

abbrev both : Os
both = value (call small (create_task sender) created)

both-Reachable : Reachable small small-IsSound both
unfolding call os_init for_range os_task_init modify os_event_init os_msg_q_init os_sem_init
    os_task_create check_prio task_at os_msg_q_create event_create os_task_clear_wait_queue
    os_msg_q_find find_from span window deliver
both-Reachable = step created (create_task sender) created-Reachable (inl refl) refl

-- The first task runs.
abbrev first : Os
first = run 0 both

two_tasks : both.tasks.n_tasks ≡ 2
unfolding call os_init for_range os_task_init modify os_event_init os_msg_q_init os_sem_init
    os_task_create check_prio task_at os_msg_q_create event_create os_task_clear_wait_queue
    os_msg_q_find find_from span window deliver
two_tasks = refl

first-IsWell : IsWell small first
first-IsWell =
    run-IsWell small 0 both (Reachable-IsWell small small-IsSound both both-Reachable)
      (omega (arith, two_tasks))

first_there : queue_of small 0 first.queues < first.queues.n_queues
unfolding call os_init for_range os_task_init modify os_event_init os_msg_q_init os_sem_init
    os_task_create check_prio task_at os_msg_q_create event_create os_task_clear_wait_queue
    os_msg_q_find find_from span window deliver
first_there = omega arith

first_byte : (first.tasks.task_list 0).event_queue (event_of small 0 first.queues / 8) < 256
unfolding call os_init for_range os_task_init modify os_event_init os_msg_q_init os_sem_init
    os_task_create check_prio task_at os_msg_q_create event_create os_task_clear_wait_queue
    os_msg_q_find find_from span window deliver
first_byte = omega arith

nothing_due : deliver (contents_of small 0 first.queues) [] ≡ none
unfolding call os_init for_range os_task_init modify os_event_init os_msg_q_init os_sem_init
    os_task_create check_prio task_at os_msg_q_create event_create os_task_clear_wait_queue
    os_msg_q_find find_from span window deliver
nothing_due = refl

first_room : length (contents_of small 0 first.queues) + 1 ≢ size_of small 0 first.queues
unfolding call os_init for_range os_task_init modify os_event_init os_msg_q_init os_sem_init
    os_task_create check_prio task_at os_msg_q_create event_create os_task_clear_wait_queue
    os_msg_q_find find_from span window deliver
first_room = omega arith

receive-post-receive_example :
    Returns (os_msg_q_receive small 10 0 (message 0 0 0) 0 none first) (λ (y₁, msg₁, os₁).
      (y₁ ≡ true)
      × (os₁.running_tid ≡ no_tid)
      × Returns (os_msg_q_post small 20 0 (message 7 0 0) 0 0 0 (run 1 os₁)) (λ (y₂, m₂, os₂).
        (y₂ ≡ false)
        × ((os₂.tasks.task_list 0).state ≡ ready)
        × Returns
            (receive_resume small 10 0 msg₁ 0 none (run 0 os₂))
            (Done small 0 (sent (message 7 0 0)) (contents_of small 0 first.queues))))
receive-post-receive_example =
    receive-post-receive small small-IsSound 0 10 20 1 first first-IsWell (omega (arith, two_tasks))
      first_there first_byte (omega (arith, two_tasks)) (omega arith) (message 0 0 0)
      (message 7 0 0) nothing_due first_room

-- A queue of two slots, which is full, and the second task runs.
abbrev full_queue : OsQueue
full_queue = record { list = λ i. message 20 0 0; message_size = 12; head = 0; tail = 0; size = 2 }

abbrev second : Os
second = run 1 (record both { queues = set_queue 0 full_queue both.queues })

second-IsWell : IsWell small second
second-IsWell =
    run-IsWell small 1 (record both { queues = set_queue 0 full_queue both.queues })
      (set_queue-Keeps small small-IsSound 0 full_queue both
        (Reachable-IsWell small small-IsSound both both-Reachable) (omega arith)).0
      (omega (arith, two_tasks))

second_there : queue_of small 0 second.queues < second.queues.n_queues
unfolding call os_init for_range os_task_init modify os_event_init os_msg_q_init os_sem_init
    os_task_create check_prio task_at os_msg_q_create event_create os_task_clear_wait_queue
    os_msg_q_find find_from span window deliver
second_there = omega arith

second_byte : (second.tasks.task_list 1).event_queue (event_of small 0 second.queues / 8) < 256
unfolding call os_init for_range os_task_init modify os_event_init os_msg_q_init os_sem_init
    os_task_create check_prio task_at os_msg_q_create event_create os_task_clear_wait_queue
    os_msg_q_find find_from span window deliver
second_byte = omega arith

no_room : length (contents_of small 0 second.queues) + 1 ≡ size_of small 0 second.queues
unfolding call os_init for_range os_task_init modify os_event_init os_msg_q_init os_sem_init
    os_task_create check_prio task_at os_msg_q_create event_create os_task_clear_wait_queue
    os_msg_q_find find_from span window deliver
no_room = refl

one_due : deliver (contents_of small 0 second.queues) [] ≡ some (message 20 0 0, [])
unfolding call os_init for_range os_task_init modify os_event_init os_msg_q_init os_sem_init
    os_task_create check_prio task_at os_msg_q_create event_create os_task_clear_wait_queue
    os_msg_q_find find_from span window deliver
one_due = refl

later_room : length {A = Msg} [] + 1 ≢ size_of small 0 second.queues
unfolding call os_init for_range os_task_init modify os_event_init os_msg_q_init os_sem_init
    os_task_create check_prio task_at os_msg_q_create event_create os_task_clear_wait_queue
    os_msg_q_find find_from span window deliver
later_room = omega arith

post-receive-post_example :
    Returns (os_msg_q_post small 10 0 (message 7 0 0) 0 0 0 second) (λ (y₁, m₁, os₁).
      (y₁ ≡ true)
      × (os₁.running_tid ≡ no_tid)
      × Returns (os_msg_q_receive small 20 0 (message 0 0 0) 0 none (run 0 os₁)) (λ (y₂, d', os₂).
        (y₂ ≡ false)
        × (d' ≡ message 20 0 0)
        × ((os₂.tasks.task_list 1).state ≡ ready)
        × Returns
            (post_resume small 10 0 m₁ 0 0 0 (run 1 os₂))
            (Done small 0 (sent (message 7 0 0)) (sent (message 7 0 0) ∷ []))))
post-receive-post_example =
    post-receive-post small small-IsSound 0 10 20 0 second second-IsWell (omega (arith, two_tasks))
      second_there second_byte (omega (arith, two_tasks)) (omega arith) (message 0 0 0)
      (message 7 0 0) (message 20 0 0) [] no_room one_due later_room
