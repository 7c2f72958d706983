-- ===== src/Tests/Queue.antt =====
-- Posting to and receiving from a queue of four slots.
use coco_os.Base.{refl, arith, ◌≡◌}
use coco_os.Base.Outcome.{Returns, halt, spinning}
use coco_os.System.{Os}
use coco_os.System.Messages.{os_msg_q_tick, tick_from}
use coco_os.System.Messages.Aging.{Aged}
use coco_os.System.Messages.Ticking.{os_msg_q_tick_lem}
use coco_os.System.Messages.OneSlot.{tick_from-spins}
use coco_os.MsgQueue.{OsQueue}
use coco_os.Tests.Data.{small, table, queue, message}
use coco_os.Base.{◌≡◌, arith, []}
use coco_os.Base.Outcome.{Returns}
use coco_os.MsgQueue.{queue_push, queue_receive}
use coco_os.MsgQueue.Span.{IsQueue, contents}
use coco_os.MsgQueue.Post.{Posts, queue_push-Posts}
use coco_os.MsgQueue.Receive.{Receives, deliver, queue_receive-Receives}
use coco_os.Tests.Data.{queue, message}

queue-IsQueue : IsQueue queue
queue-IsQueue = omega arith

queue_push-Posts_example :
    Returns (queue_push queue (message 30 0 0)) (Posts queue (message 30 0 0))
queue_push-Posts_example = queue_push-Posts queue (message 30 0 0) queue-IsQueue

queue_receive-Receives_example : Returns (queue_receive (message 0 0 0) queue) (λ r.
    Receives (message 0 0 0) queue (deliver (contents queue) []) r × IsQueue r.2 × (r.2.size ≡ 4))
queue_receive-Receives_example = queue_receive-Receives (message 0 0 0) queue queue-IsQueue

-- One queue, whose event is 0.
abbrev os_of : OsQueue → Os
os_of q = record {
  running = 1;
  running_tid = 255;
  tasks = table;
  sems = record { sem_list = λ i. record { max_value = 1; value = 0 }; n_semaphores = 0 };
  events = record {
    event_list = λ i. record { id = i; signaled_by_tid = 255 };
    n_events = 1;
    last_signaled_event = 255;
  };
  queues = record { msg_q_list = λ i. record { q = q; task_id = 2; change = 0 }; n_queues = 1 };
}

os_msg_q_tick_lem_example :
    Returns (os_msg_q_tick small 0 (os_of queue)) (λ os'. Aged queue 2 (os'.queues.msg_q_list 0).q)
os_msg_q_tick_lem_example =
    os_msg_q_tick_lem small 0 0 (omega arith) (omega arith) (os_of queue) (omega arith) refl
      (omega arith)
      (record {
        slots = omega arith;
        byte = omega arith;
        head_in = omega arith;
        tail_in = omega arith;
      })

-- As `os_msgQ_create` leaves a queue with one slot.
abbrev one_slot : OsQueue
one_slot = record { list = λ i. message 3 0 0; message_size = 12; head = 1; tail = 0; size = 1 }

tick_from-spins_example : tick_from small 1000 0 1 0 (os_of one_slot) ≡ halt spinning
tick_from-spins_example = tick_from-spins small 0 (os_of one_slot) 1 1000 (omega arith) refl refl
