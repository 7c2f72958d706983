-- ===== src/Kernel/Macros/Messages/Waiting.antt =====
-- os_msgqueue/include/os_msgqueue.h: the waits of OS_MSG_Q_POST and OS_MSG_Q_RECEIVE.
use coco_os.Base.{ℕ, ◌+◌, ◌<◌, ◌≡◌, ◌≢◌, ◌||◌, refl, Bool, true, false, arith, ◌∙◌, ap, []}
use mathlib.Core.Path.{subst}
use coco_os.Base.Tests.{leb, ◌==◌, lt→ltb}
use coco_os.Base.Arrays.{update, update_self}
use coco_os.Base.Outcome.{ok, ◌>>=◌, Returns, Returns_bind, Returns-elim}
use mathlib.Core.Option.{none}
use coco_os.Config.{Config, total_events, no_tid}
use coco_os.Task.{Tcb, modify}
use coco_os.Task.Fields.{os_task_set_wait_queue, os_task_set_change_event}
use coco_os.MsgQueue.{
  Msg, Status, empty, full, OsQueue, no_queues, os_msg_q_find, os_msg_q_event_get, os_msg_post,
  os_msg_receive, queue_push, queue_receive,
}
use coco_os.Base.Lists.{length}
use coco_os.MsgQueue.Span.{contents}
use coco_os.MsgQueue.Post.{Posts, queue_push-Posts}
use coco_os.MsgQueue.Receive.{Receives, deliver, queue_receive-Receives}
use coco_os.System.{Os}
use coco_os.System.Invariant.{IsSound, IsWell}
use coco_os.Kernel.Macros.Messages.{
  wait_for_change, note_queue, post_try, os_msg_q_post, receive_try, os_msg_q_receive,
}
use coco_os.Kernel.Macros.Messages.Owners.{set_queue-same}
use coco_os.Kernel.Macros.Messages.Change.{waits_with, Waits, wait_for_change-Waits}

module _ (cfg : Config) (sound : IsSound cfg) (line task_id : ℕ) (msg : Msg) (os : Os)
    (w : IsWell cfg os) (runs : os.running_tid < os.tasks.n_tasks) where
  -- The queue of the receiver, and its event.
  abbrev pub target : ℕ
  target = os_msg_q_find cfg task_id os.queues

  abbrev pub target_queue : Os → OsQueue
  target_queue os' = (os'.queues.msg_q_list target).q

  abbrev pub target_event : ℕ
  target_event = (os.queues.msg_q_list target).change

  abbrev me : Tcb
  me = os.tasks.task_list os.running_tid

  -- The running task has noted the queue and its event.
  abbrev notes : Tcb → Tcb
  notes t = record t { wait_q = target; msg_change_event = target_event }

  -- The macro has yielded with the message `m`: no task runs, and the task waits on the line for a
  -- signal of the event of the queue, having noted the queue, its event and the status. The queues
  -- and the other tasks are as they were.
  abbrev pub Parks : Status → Msg → Bool × Msg × Os → Type 0
  Parks s m (yielded, m', os') =
      (yielded ≡ true)
      × (m' ≡ m)
      × (os'.queues ≡ os.queues)
      × (os'.tasks.n_tasks ≡ os.tasks.n_tasks)
      × (os'.events.n_events ≡ os.events.n_events)
      × (os'.running_tid ≡ no_tid)
      × (os'.tasks.task_list os.running_tid ≡ waits_with cfg line target_event s (notes me))
      × ((j : ℕ) → j ≢ os.running_tid → os'.tasks.task_list j ≡ os.tasks.task_list j)

  module _ (there : target < os.queues.n_queues) where
    event_get : os_msg_q_event_get cfg target os.queues ≡ target_event
    unfolding os_msg_q_event_get
    event_get = ground (arith, w.queues_fit, there)

    found : (no_queues cfg || leb os.queues.n_queues target) ≡ false
    found = ground (arith, w.queues_fit, there)

    -- The state in which a round begins.
    abbrev noted : Os
    noted = record os {
      tasks = record (os.tasks) {
        task_list =
            update (update os.tasks.task_list os.running_tid (record me { wait_q = target }))
              os.running_tid (notes me);
      };
    }

    note_queue_lem : note_queue cfg task_id os ≡ ok (target_event, noted)
    unfolding os_task_set_wait_queue os_task_set_change_event modify
    note_queue_lem =
        let small = lt→ltb os.running_tid cfg.max_tasks (omega (arith, w.tasks_fit)) in
        let self : (os.running_tid == os.running_tid) ≡ true = ground arith in
        simp (small, event_get, self)

    -- With nothing due a receive leaves the queues.
    os_msg_receive-empty :
        deliver (contents (target_queue os)) [] ≡ none
        → os_msg_receive cfg msg target os.queues ≡ ok (empty, msg, os.queues)
    unfolding os_msg_receive
    os_msg_receive-empty none_due =
        let q = target_queue os in
        let ((s, m, q'), e, h) =
          Returns-elim (queue_receive msg q) _
            (queue_receive-Receives msg q (w.valid target there)) in
        let k = subst (λ o. Receives msg q o (s, m, q')) none_due h.0 in
        rw (found, e, k.0, k.1, k.2)
          (ap (λ qs. ok (empty, msg, qs)) (set_queue-same target os.queues))

    -- With no room a post leaves the queues.
    os_msg_post-full :
        (delay period : ℕ)
        → length (contents (target_queue os)) + 1 ≡ (target_queue os).size
        → os_msg_post cfg msg target delay period os.queues
          ≡ ok (full, record msg { delay = delay; reload = period }, os.queues)
    unfolding os_msg_post
    os_msg_post-full delay period no_room =
        let q = target_queue os in
        let m : Msg = record msg { delay = delay; reload = period } in
        let ((s, q'), e, h) =
          Returns-elim (queue_push q m) (Posts q m) (queue_push-Posts q m (w.valid target there)) in
        let k = h.2 no_room in
        rw (found, e, k.0, k.1) (ap (λ qs. ok (full, m, qs)) (set_queue-same target os.queues))

    -- The round ends in a wait.
    waited :
        (s : Status) (m : Msg)
        → Returns
            (wait_for_change cfg line s none target_event noted >>= λ os₂. ok (true, m, os₂))
            (Parks s m)
    waited s m =
        let known = w.known target there in
        let total : target_event < total_events cfg = omega (arith, known, w.events_fit) in
        Returns_bind (wait_for_change cfg line s none target_event noted) _
          (Waits cfg line target_event s noted) (Parks s m)
          (wait_for_change-Waits cfg line target_event s noted runs w.tasks_fit known total
            (sound.roomy target_event total))
          (λ os₂ h. (
            refl,
            refl,
            h.0,
            h.1,
            h.2,
            h.3,
            h.4
                ∙ ap (waits_with cfg line target_event s) (
                    update_self
                      (update os.tasks.task_list os.running_tid (record me { wait_q = target }))
                      os.running_tid (notes me)),
            λ j ne. h.5 j ne ∙ ground arith,
          ))

    pub os_msg_q_receive-Parks :
        deliver (contents (target_queue os)) [] ≡ none
        → Returns (os_msg_q_receive cfg line task_id msg 0 none os) (Parks empty msg)
    unfolding os_msg_q_receive receive_try
    os_msg_q_receive-Parks none_due =
        rw note_queue_lem (rw (os_msg_receive-empty none_due) (waited empty msg))

    pub os_msg_q_post-Parks :
        (delay period : ℕ)
        → length (contents (target_queue os)) + 1 ≡ (target_queue os).size
        → Returns
            (os_msg_q_post cfg line task_id msg delay period 0 os)
            (Parks full (record msg { delay = delay; reload = period }))
    unfolding os_msg_q_post post_try
    os_msg_q_post-Parks delay period no_room = rw note_queue_lem (
        rw (os_msg_post-full delay period no_room)
          (waited full (record msg { delay = delay; reload = period })))
