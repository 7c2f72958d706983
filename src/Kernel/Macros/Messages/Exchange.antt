-- ===== src/Kernel/Macros/Messages/Exchange.antt =====
-- os_msgqueue/include/os_msgqueue.h: OS_MSG_Q_RECEIVE and OS_MSG_Q_POST of two tasks, where the first
-- has to wait for the second.
use coco_os.Base.{
  ◌≢◌, ℕ, ◌+◌, ◌/◌, ◌<◌, ◌≡◌, refl, sym, Bool, true, false, arith, List, [], ◌∷◌, ◌++◌,
}
use mathlib.Core.Path.{subst}
use coco_os.Base.Lists.{length}
use coco_os.Base.Outcome.{Returns, Returns_mono, Returns_and_Safe}
use mathlib.Core.Option.{none, some}
use coco_os.Config.{Config, no_tid}
use coco_os.Task.{ready}
use coco_os.MsgQueue.{Msg, Status, empty, full}
use coco_os.MsgQueue.Receive.{deliver}
use coco_os.System.{Os}
use coco_os.System.Invariant.{IsSound, IsWell}
use coco_os.Kernel.Macros.Messages.{os_msg_q_post, os_msg_q_receive, post_resume, receive_resume}
use coco_os.Kernel.Macros.Messages.Rounds.{Ends}
use coco_os.Kernel.Macros.Messages.Safety.{os_msg_q_post-Ends, os_msg_q_receive-Ends}
use coco_os.Kernel.Macros.Messages.Waiting.{Parks, os_msg_q_receive-Parks, os_msg_q_post-Parks}
use coco_os.Kernel.Macros.Messages.Handover.{
  WaitsFor, waits_with-WaitsFor, run, queue_of, contents_of, size_of, event_of,
}
use coco_os.Kernel.Macros.Messages.Rendezvous.{
  sent, Done, posted_wakes, received_wakes, receiver_goes_on, sender_goes_on,
}

module _ (cfg : Config) (sound : IsSound cfg) (task_id line line' other : ℕ) (os : Os)
    (w : IsWell cfg os) (runs : os.running_tid < os.tasks.n_tasks)
    (there : queue_of cfg task_id os.queues < os.queues.n_queues)
    (byte : (os.tasks.task_list os.running_tid).event_queue (event_of cfg task_id os.queues / 8)
      < 256)
    (inside : other < os.tasks.n_tasks) (differ : os.running_tid ≢ other) where
  abbrev me : ℕ
  me = os.running_tid

  -- The task has parked, and waits as the macro says.
  parked_waits :
      (s : Status) (msg m : Msg) (r : Bool × Msg × Os)
      → Parks cfg sound line task_id msg os w runs s m r
      → WaitsFor s (event_of cfg task_id os.queues) (r.2.tasks.task_list me)
  parked_waits s msg m (y, m', os₁) p =
      subst (WaitsFor s (event_of cfg task_id os.queues)) (sym (p.6)) (
        waits_with-WaitsFor cfg line (event_of cfg task_id os.queues) s
          (record (os.tasks.task_list me) {
            wait_q = queue_of cfg task_id os.queues;
            msg_change_event = event_of cfg task_id os.queues;
          })
          byte refl)

  -- Where the static assertions hold and each configured event has its bit in the wait queues (so
  -- with up to 16 events, but not with 17): in a well-formed state (`IsWell`: the tables have room
  -- for what was created, the running task is in the table or is NO_TID, priorities are distinct,
  -- each created queue is valid, with two slots or more, and has an event that was created) the
  -- running task, one of the table, receives, with no callback, from a queue that was created and
  -- in which no message is due, and it waits; the cell of its wait queue for the event of the queue
  -- is a byte. Then another task of the table runs and posts a message to that queue, which has
  -- room, to be delivered at once. The post returns without a yield, and the first task is ready.
  -- When it runs again it gets just that message, and the queue holds what it held at first.
  pub receive-post-receive :
      (msg m : Msg)
      → deliver (contents_of cfg task_id os.queues) [] ≡ none
      → length (contents_of cfg task_id os.queues) + 1 ≢ size_of cfg task_id os.queues
      → Returns (os_msg_q_receive cfg line task_id msg 0 none os) (λ (y₁, msg₁, os₁).
        (y₁ ≡ true)
        × (os₁.running_tid ≡ no_tid)
        × Returns (os_msg_q_post cfg line' task_id m 0 0 0 (run other os₁)) (λ (y₂, m₂, os₂).
          (y₂ ≡ false)
          × ((os₂.tasks.task_list me).state ≡ ready)
          × Returns
              (receive_resume cfg line task_id msg₁ 0 none (run me os₂))
              (Done cfg task_id (sent m) (contents_of cfg task_id os.queues))))
  receive-post-receive msg m none_due room =
      let receives = os_msg_q_receive cfg line task_id msg 0 none os in
      let l = contents_of cfg task_id os.queues in
      Returns_mono receives
        (λ r. Parks cfg sound line task_id msg os w runs empty msg r × Ends cfg sound line os r) _
        (Returns_and_Safe receives (Parks cfg sound line task_id msg os w runs empty msg)
          (Ends cfg sound line os)
          (os_msg_q_receive-Parks cfg sound line task_id msg os w runs there none_due)
          (os_msg_q_receive-Ends cfg sound line task_id msg os w runs 0 none tt))
        (λ (y₁, msg₁, os₁) (p, f). (
          p.0,
          p.5,
          Returns_mono (os_msg_q_post cfg line' task_id m 0 0 0 (run other os₁)) _ _
              (posted_wakes cfg sound task_id line' other me m os₁ os.queues f.0 p.2
                (omega (arith, p.3)) (omega (arith, p.3)) differ there room
                (parked_waits empty msg msg (y₁, msg₁, os₁) p))
              (λ (y₂, m₂, os₂) k. (
                k.0,
                k.2.5,
                receiver_goes_on cfg sound task_id line me (size_of cfg task_id os.queues) msg₁ m l
                    os₂ k.2 none_due,
              )),
        ))

  -- Where the static assertions hold and each configured event has its bit in the wait queues (so
  -- with up to 16 events, but not with 17): in a well-formed state (`IsWell`: the tables have room
  -- for what was created, the running task is in the table or is NO_TID, priorities are distinct,
  -- each created queue is valid, with two slots or more, and has an event that was created) the
  -- running task, one of the table, posts a message, to be delivered at once, to a queue that was
  -- created and is full, and it waits; the cell of its wait queue for the event of the queue is a
  -- byte. Then another task of the table runs and receives, with no callback, from that queue a
  -- message that is due, and that leaves room. The receive returns without a yield, and the first
  -- task is ready. When it runs again its message goes to the end of the queue.
  pub post-receive-post :
      (msg m d : Msg) (l : List Msg)
      → length (contents_of cfg task_id os.queues) + 1 ≡ size_of cfg task_id os.queues
      → deliver (contents_of cfg task_id os.queues) [] ≡ some (d, l)
      → length l + 1 ≢ size_of cfg task_id os.queues
      → Returns (os_msg_q_post cfg line task_id m 0 0 0 os) (λ (y₁, m₁, os₁).
        (y₁ ≡ true)
        × (os₁.running_tid ≡ no_tid)
        × Returns (os_msg_q_receive cfg line' task_id msg 0 none (run other os₁)) (λ (y₂, d', os₂).
          (y₂ ≡ false)
          × (d' ≡ d)
          × ((os₂.tasks.task_list me).state ≡ ready)
          × Returns
              (post_resume cfg line task_id m₁ 0 0 0 (run me os₂))
              (Done cfg task_id (sent m) (l ++ sent m ∷ []))))
  post-receive-post msg m d l no_room due room =
      let posts = os_msg_q_post cfg line task_id m 0 0 0 os in
      let m' : Msg = sent m in
      Returns_mono posts
        (λ r. Parks cfg sound line task_id m os w runs full m' r × Ends cfg sound line os r) _
        (Returns_and_Safe posts (Parks cfg sound line task_id m os w runs full m')
          (Ends cfg sound line os)
          (os_msg_q_post-Parks cfg sound line task_id m os w runs there 0 0 no_room)
          (os_msg_q_post-Ends cfg sound line task_id m os w runs 0 0 0))
        (λ (y₁, m₁, os₁) (p, f). (
          p.0,
          p.5,
          Returns_mono (os_msg_q_receive cfg line' task_id msg 0 none (run other os₁)) _ _
              (received_wakes cfg sound task_id line' other me msg d l os₁ os.queues f.0 p.2
                (omega (arith, p.3)) (omega (arith, p.3)) differ there due
                (parked_waits full m m' (y₁, m₁, os₁) p))
              (λ (y₂, d', os₂) k. (
                k.0,
                k.1,
                k.2.5,
                rw (p.1) (
                    sender_goes_on cfg sound task_id line me (size_of cfg task_id os.queues) m' l
                      os₂ k.2 room),
              )),
        ))
