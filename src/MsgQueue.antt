-- ===== src/MsgQueue.antt =====
-- os_msgqueue/src/os_msgqueue.c: the message queues. The functions that also create or signal an
-- event are in `System`.
-- The buffer of a queue is `size` slots of `messageSize` bytes, which the caller provides; a slot is
-- one message here, and a copy loop of `messageSize` bytes moves one message. An access past the
-- buffer is `bad_access`.
pub mod Span
pub mod Post
pub mod Receive
pub mod Stream
use coco_os.Base.{ℕ, zero, suc, ◌+◌, ◌%◌, Bool, true, false, ◌&&◌, ◌||◌, not, List}
use coco_os.Base.Tests.{ltb, leb, ◌==◌, if◌then◌else◌}
use coco_os.Base.Arrays.{update}
use coco_os.Base.Outcome.{Result, ok, halt, spinning, in_range, div_guard, ◌>>=◌, ◌>>◌}
use coco_os.Config.{Config, no_event, no_queue}

-- `Msg_t`, with the bytes of the user's message type that come after it
pub record Msg : Type 0 where
  pub signal : ℕ
  pub reserved : ℕ
  pub delay : ℕ  -- uint32
  pub reload : ℕ  -- uint32
  pub rest : List ℕ

pub data Status : Type 0 where
  undef def empty full received posted : Status

-- `OSQueue_t`
pub record OsQueue : Type 0 where
  pub list : ℕ → Msg
  pub message_size : ℕ  -- uint16
  pub head : ℕ  -- uint8
  pub tail : ℕ  -- uint8
  pub size : ℕ  -- uint8

-- `OSMsgQ_t`
pub record OsMsgQ : Type 0 where
  pub q : OsQueue
  pub task_id : ℕ
  pub change : ℕ

-- The static variables of the file.
pub record Queues : Type 0 where
  pub msg_q_list : ℕ → OsMsgQ
  pub n_queues : ℕ

-- `( x + 1 ) % q->size`, with no slots a division by zero
abbrev pub next_slot : OsQueue → ℕ → Result ℕ
next_slot q x = do div_guard q.size; ok ((x + 1) % q.size)

abbrev pub read_slot : OsQueue → ℕ → Result Msg
read_slot q i = do in_range (ltb i q.size); ok (q.list i)

abbrev pub write_slot : OsQueue → ℕ → Msg → Result OsQueue
write_slot q i m = do in_range (ltb i q.size); ok (record q { list = update q.list i m })

unfoldable pub queue_push : OsQueue → Msg → Result (Status × OsQueue)
queue_push q m =
    if 0 == q.size then ok (undef, q) else if q.head == q.tail then ok (full, q) else do
      q' ← write_slot q q.head m
      ok (posted, record q' { head = (q.head + 1) % 256 % q.size })

-- The loop of `MsgQAllDelayed`, from `next` on. `fuel` bounds the rounds: each visits another slot.
pub all_delayed_from : ℕ → OsQueue → ℕ → Result Bool
all_delayed_from zero q next = halt spinning
all_delayed_from (suc fuel) q next =
    let rest = next_slot q next >>= λ n. all_delayed_from fuel q n in
    if next == q.head
    then ok true
    else (read_slot q next >>= λ m. if m.delay == 0 then ok false else rest)

unfoldable pub msg_q_all_delayed : OsQueue → Result Bool
unfolding all_delayed_from
msg_q_all_delayed q = do next ← next_slot q q.tail; all_delayed_from (q.size + 1) q next

-- Is the message due? A periodic one goes back with its delay restarted.
abbrev pub is_periodic : Msg → Bool
is_periodic m = ltb 0 m.reload

abbrev pub is_due : Msg → Bool
is_due m = m.delay == 0

abbrev pub restart : Msg → Msg
restart m = if is_due m && is_periodic m then record m { delay = m.reload } else m

-- The end of a round: a message that is not due, or is periodic, goes to the head.
abbrev pub put_back : OsQueue → Msg → Result OsQueue
put_back q m = do q' ← write_slot q q.head m; h ← next_slot q q.head; ok (record q' { head = h })

-- The local variables of `os_msg_receive` after a round: `found`, `*msg`, `*q` and `tail`.
pub record Round : Type 0 where
  pub found : Bool
  pub msg : Msg
  pub queue : OsQueue
  pub tail : ℕ

-- One round of the loop `while ( found == 0 )`.
pub receive_round : OsQueue → ℕ → Result Round
receive_round q tail = do
  t ← next_slot q tail
  m ← read_slot q t
  q' ← if not (is_due m) || is_periodic m && is_due m then put_back q (restart m) else ok q
  ok (record { found = is_due m; msg = restart m; queue = q'; tail = t })

-- The loop, and `q->tail = tail` behind it.
pub receive_from : ℕ → OsQueue → ℕ → Result (Msg × OsQueue)
receive_from zero q tail = halt spinning
receive_from (suc fuel) q tail = receive_round q tail >>= λ r. elim r.found [
  | true ↦ ok (r.msg, record (r.queue) { tail = r.tail })
  | false ↦ receive_from fuel r.queue r.tail
]

-- `os_msg_receive` on the queue itself. The message is the caller's, as it was unless one is received.
pub queue_receive : Msg → OsQueue → Result (Status × Msg × OsQueue)
unfolding msg_q_all_delayed receive_from receive_round
queue_receive msg q = do
  next ← next_slot q q.tail
  if next == q.head then ok (empty, msg, q) else (do
    delayed ← msg_q_all_delayed q
    if delayed
        then ok (empty, msg, q)
        else (receive_from q.size q q.tail >>= λ (m, q'). ok (received, m, q')))

abbrev pub set_queue : ℕ → OsQueue → Queues → Queues
set_queue queue q qs = record qs {
  msg_q_list = update qs.msg_q_list queue (record (qs.msg_q_list queue) { q = q });
}

module _ (cfg : Config) where
  -- Of the build with no queues each function is a constant or does nothing.
  abbrev pub no_queues : Bool
  no_queues = cfg.max_queues == 0

  -- Each field of a queue is reset by the round of its index.
  abbrev blank : OsMsgQ → OsMsgQ
  blank o = record {
    q = record (o.q) { message_size = 0; head = 0; tail = 0; size = 0 };
    task_id = 0;
    change = 0;
  }

  unfoldable pub os_msg_q_init : Queues → Queues
  os_msg_q_init qs = if no_queues then qs else record {
    msg_q_list = λ i. if ltb i cfg.max_queues then blank (qs.msg_q_list i) else qs.msg_q_list i;
    n_queues = 0;
  }

  -- The loop of `os_msgQ_find`, which stops at the first queue of the task.
  unfoldable pub find_from : ℕ → ℕ → ℕ → Queues → ℕ
  find_from task_id zero i qs = no_queue
  find_from task_id (suc n) i qs =
      let rest = find_from task_id n (i + 1) qs in
      if (qs.msg_q_list i).task_id == task_id then i else rest

  unfoldable pub os_msg_q_find : ℕ → Queues → ℕ
  os_msg_q_find task_id qs = if no_queues then no_queue else find_from task_id qs.n_queues 0 qs

  unfoldable pub os_msg_q_event_get : ℕ → Queues → ℕ
  os_msg_q_event_get queue qs =
      if no_queues
      then no_event
      else if leb qs.n_queues queue
      then no_event
      else (qs.msg_q_list queue).change

  -- `msg->delay` and `msg->reload` are set in the caller's message.
  unfoldable pub os_msg_post : Msg → ℕ → ℕ → ℕ → Queues → Result (Status × Msg × Queues)
  os_msg_post msg queue delay period qs =
      if no_queues || leb qs.n_queues queue
      then ok (undef, msg, qs)
      else (let m : Msg = record msg { delay = delay; reload = period } in
          queue_push (qs.msg_q_list queue).q m >>= λ (s, q). ok (s, m, set_queue queue q qs))

  unfoldable pub os_msg_receive : Msg → ℕ → Queues → Result (Status × Msg × Queues)
  os_msg_receive msg queue qs =
      if no_queues || leb qs.n_queues queue
      then ok (undef, msg, qs)
      else (queue_receive msg (qs.msg_q_list queue).q >>= λ (s, m, q).
          ok (s, m, set_queue queue q qs))
