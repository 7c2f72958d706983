-- ===== src/Kernel/Macros/Messages/Delivery.antt =====
-- os_msgqueue/include/os_msgqueue.h: what OS_MSG_Q_POST does where the queue has room,
-- and OS_MSG_Q_RECEIVE where a message is due.
use coco_os.Base.{List, ℕ, ◌+◌, ◌≤◌, ◌<◌, ◌≡◌, ◌≢◌, ◌||◌, refl, Bool, false, arith, [], ◌∷◌, ◌++◌}
use coco_os.Base.Tests.{leb, lt→ltb}
use coco_os.Base.Arrays.{update_self}
use coco_os.Base.Lists.{length}
use coco_os.Base.Outcome.{Result, ok, ◌>>=◌, Returns, Returns_bind, Returns_mono}
use mathlib.Core.Path.{ap, ◌∙◌, subst, sym}
use coco_os.Config.{Config, total_events}
use coco_os.Task.{modify}
use coco_os.Task.Fields.{os_task_set_wait_queue, os_task_set_change_event}
use coco_os.Task.Events.Signal.{signaled}
use coco_os.MsgQueue.{
  Msg, Status, posted, received, queue_receive, os_msg_receive, OsQueue, Queues, os_msg_q_find,
  os_msg_q_event_get, os_msg_post, queue_push, no_queues,
}
use coco_os.MsgQueue.Span.{IsQueue, contents}
use coco_os.MsgQueue.Post.{Posts, queue_push-Posts}
use coco_os.MsgQueue.Receive.{Receives, deliver, queue_receive-Receives}
use coco_os.System.{Os}
use coco_os.System.Invariant.{IsSound, IsWell}
use coco_os.System.Signals.Isr.{signal_from_lem}
use coco_os.Kernel.Macros.Messages.Owners.{SameOwners, set_queue-SameOwners}
use coco_os.Kernel.Macros.Messages.{
  Option, some, announce, note_queue, post_try, os_msg_q_post, receive_try, os_msg_q_receive,
}

module _ (cfg : Config) (sound : IsSound cfg) (line task_id : ℕ) (msg : Msg) (os : Os)
    (w : IsWell cfg os) (runs : os.running_tid < os.tasks.n_tasks) where
  -- The queue of the receiver, and its event.
  abbrev pub target : ℕ
  target = os_msg_q_find cfg task_id os.queues

  abbrev pub target_queue : Os → OsQueue
  target_queue os' = (os'.queues.msg_q_list target).q

  abbrev pub target_event : ℕ
  target_event = (os.queues.msg_q_list target).change

  -- The running task has noted the queue and its event, and nothing else has changed.
  abbrev pub Noted : ℕ × Os → Type 0
  Noted (event, os₁) =
      (event ≡ target_event)
      × (os₁.queues ≡ os.queues)
      × (os₁.tasks.n_tasks ≡ os.tasks.n_tasks)
      × ((j : ℕ) → j ≢ os.running_tid → os₁.tasks.task_list j ≡ os.tasks.task_list j)

  -- The macro has ended with the message `m`; the queue holds `l`; every other task has seen a
  -- signal of the event of the queue; and each queue has its owner, its event and its size.
  abbrev pub Moved : Msg → List Msg → Bool × Msg × Os → Type 0
  Moved m l (yielded, m', os') =
      (yielded ≡ false)
      × (m' ≡ m)
      × (contents (target_queue os') ≡ l)
      × ((j : ℕ)
          → j < os.tasks.n_tasks
          → j ≢ os.running_tid
          → os'.tasks.task_list j ≡ signaled cfg target_event (os.tasks.task_list j))
      × SameOwners os.queues os'.queues

  -- What a call on the queues leaves.
  abbrev Left : Status → Msg → List Msg → Status × Msg × Queues → Type 0
  Left done m l (s, m', qs) =
      (s ≡ done) × (m' ≡ m) × (contents (qs.msg_q_list target).q ≡ l) × SameOwners os.queues qs

  module _ (there : target < os.queues.n_queues) where
    event_get : os_msg_q_event_get cfg target os.queues ≡ target_event
    unfolding os_msg_q_event_get
    event_get = ground (arith, w.queues_fit, there)

    note_queue-Noted : Returns (note_queue cfg task_id os) Noted
    unfolding os_task_set_wait_queue os_task_set_change_event modify
    note_queue-Noted =
        let small = lt→ltb os.running_tid cfg.max_tasks (omega (arith, w.tasks_fit)) in
        rw small (rw small (event_get, refl, refl, λ j ne. ground arith))

    -- What is left after the announcement.
    abbrev Announced : Os → Msg → Bool × Msg × Os → Type 0
    Announced os₁ m (yielded, m', os') =
        (yielded ≡ false)
        × (m' ≡ m)
        × (os'.queues ≡ os₁.queues)
        × ((j : ℕ)
            → j < os₁.tasks.n_tasks
            → os'.tasks.task_list j ≡ signaled cfg target_event (os₁.tasks.task_list j))

    announced :
        (m : Msg) (os₁ : Os)
        → os₁.tasks.n_tasks ≤ cfg.max_tasks
        → Returns (announce cfg target_event os₁ >>= λ os₂. ok (false, m, os₂)) (Announced os₁ m)
    announced m os₁ le =
        let known : target_event < total_events cfg =
          omega (arith, w.known target there, w.events_fit) in
        Returns_bind (announce cfg target_event os₁) _ _ (Announced os₁ m)
          (signal_from_lem cfg target_event known (sound.roomy target_event known) os₁.running_tid
            os₁ le)
          (λ os' h. (refl, refl, h.0, λ j hj. ground (arith, h.1.2 j)))

    -- The call on the queues was followed by the announcement.
    moved :
        (done : Status) (m : Msg) (l : List Msg) (r : Status × Msg × Queues) (os₁ : Os)
        → Noted (target_event, os₁)
        → Left done m l r
        → Returns
            (announce cfg target_event (record os₁ { queues = r.2 }) >>= λ os₃.
              ok (false, r.1, os₃))
            (Moved m l)
    moved done m l (s, m', qs) os₁ n p =
        let os₂ : Os = record os₁ { queues = qs } in
        Returns_mono (announce cfg target_event os₂ >>= λ os₃. ok (false, m', os₃))
          (Announced os₂ m') (Moved m l) (announced m' os₂ (omega (arith, n.2, w.tasks_fit)))
          (λ (y, m₂, os₃) k. (
            k.0,
            k.1 ∙ p.1,
            ap (λ r. contents ((r.msg_q_list target).q)) k.2 ∙ p.2,
            λ j hj ne. k.3 j (omega (arith, n.2)) ∙ ap (signaled cfg target_event) (n.3 j ne),
            subst (SameOwners os.queues) (sym k.2) p.3,
          ))

    -- The list of the queue with the message at its end.
    abbrev pub after_post : ℕ → ℕ → List Msg
    after_post delay period =
        contents (target_queue os) ++ record msg { delay = delay; reload = period } ∷ []

    os_msg_post-Left :
        (delay period : ℕ)
        → length (contents (target_queue os)) + 1 ≢ (target_queue os).size
        → Returns
            (os_msg_post cfg msg target delay period os.queues)
            (Left posted (record msg { delay = delay; reload = period }) (after_post delay period))
    unfolding os_msg_post
    os_msg_post-Left delay period room =
        let m : Msg = record msg { delay = delay; reload = period } in
        let found : (no_queues cfg || leb os.queues.n_queues target) ≡ false =
          ground (arith, w.queues_fit, there) in
        rw found (
          Returns_bind (queue_push (target_queue os) m) _ (Posts (target_queue os) m)
            (Left posted m (after_post delay period))
            (queue_push-Posts (target_queue os) m (w.valid target there))
            (λ (s, q') p. (
              (p.3 room).0,
              refl,
              ap (λ o. contents (o.q)) (update_self os.queues.msg_q_list target _) ∙ (p.3 room).1,
              set_queue-SameOwners target q' os.queues p.1,
            )))

    -- A round of the macro, with what was noted.
    pub post_try-Moved :
        (delay period async : ℕ) (os₁ : Os)
        → Noted (target_event, os₁)
        → length (contents (target_queue os)) + 1 ≢ (target_queue os).size
        → Returns
            (post_try cfg line task_id msg delay period async target_event os₁)
            (Moved (record msg { delay = delay; reload = period }) (after_post delay period))
    unfolding post_try
    post_try-Moved delay period async os₁ n room =
        let m₁ : Msg = record msg { delay = delay; reload = period } in
        rw n.1 (
          Returns_bind (os_msg_post cfg msg target delay period os.queues) _
            (Left posted m₁ (after_post delay period)) (Moved m₁ (after_post delay period))
            (os_msg_post-Left delay period room)
            (λ (s, m, qs) p.
              rw (p.0) (moved posted m₁ (after_post delay period) (s, m, qs) os₁ n p)))

    -- Where the static assertions hold and each configured event has its bit in the wait queues (so
    -- with up to 16 events, but not with 17): in a well-formed state (`IsWell`: the tables have
    -- room for what was created, the running task is in the table or is NO_TID, priorities are
    -- distinct, each created queue is valid, with two slots or more, and has an event that was
    -- created) the running task is one of the table. Its OS_MSG_Q_POST to a queue that was created
    -- and has room returns without a yield: the message is put at the end of the queue, with its
    -- delay and its period, every other task of the table has seen a signal of the event of the
    -- queue, and each queue keeps its owner, its event and its size.
    pub os_msg_q_post-Moved :
        (delay period async : ℕ)
        → length (contents (target_queue os)) + 1 ≢ (target_queue os).size
        → Returns
            (os_msg_q_post cfg line task_id msg delay period async os)
            (Moved (record msg { delay = delay; reload = period }) (after_post delay period))
    unfolding os_msg_q_post
    os_msg_q_post-Moved delay period async room =
        Returns_bind (note_queue cfg task_id os) _ Noted _ note_queue-Noted (λ (event, os₁) n.
          subst
            (λ e.
              Returns (post_try cfg line task_id msg delay period async e os₁)
                (Moved (record msg { delay = delay; reload = period }) (after_post delay period)))
            (sym n.0) (post_try-Moved delay period async os₁ (refl, n.1, n.2, n.3) room))

    os_msg_receive-Left :
        (d : Msg) (l : List Msg)
        → deliver (contents (target_queue os)) [] ≡ some (d, l)
        → Returns (os_msg_receive cfg msg target os.queues) (Left received d l)
    unfolding os_msg_receive
    os_msg_receive-Left d l due =
        let q = target_queue os in
        let found : (no_queues cfg || leb os.queues.n_queues target) ≡ false =
          ground (arith, w.queues_fit, there) in
        rw found (
          Returns_bind (queue_receive msg q) _
            (λ r. Receives msg q (deliver (contents q) []) r × IsQueue r.2 × (r.2.size ≡ q.size))
            (Left received d l) (queue_receive-Receives msg q (w.valid target there))
            (λ r p.
              let h = subst (λ o. Receives msg q o r) due p.0 in
              (
                h.0,
                h.1,
                ap (λ o. contents (o.q)) (update_self os.queues.msg_q_list target _) ∙ h.2,
                set_queue-SameOwners target r.2 os.queues p.2,
              )))

    -- A round of the macro.
    pub receive_try-Moved :
        (d : Msg) (l : List Msg) (async : ℕ) (cb : Option (Os → Result Os)) (os₁ : Os)
        → Noted (target_event, os₁)
        → deliver (contents (target_queue os)) [] ≡ some (d, l)
        → Returns (receive_try cfg line task_id msg async cb target_event os₁) (Moved d l)
    unfolding receive_try
    receive_try-Moved d l async cb os₁ n due = rw n.1 (
        Returns_bind (os_msg_receive cfg msg target os.queues) _ (Left received d l) (Moved d l)
          (os_msg_receive-Left d l due)
          (λ (s, m, qs) p. rw (p.0) (moved received d l (s, m, qs) os₁ n p)))

    -- Where the static assertions hold and each configured event has its bit in the wait queues (so
    -- with up to 16 events, but not with 17): in a well-formed state (`IsWell`: the tables have
    -- room for what was created, the running task is in the table or is NO_TID, priorities are
    -- distinct, each created queue is valid, with two slots or more, and has an event that was
    -- created) the running task is one of the table. Its OS_MSG_Q_RECEIVE from a queue that was
    -- created and holds a message that is due returns without a yield: it gives the first such
    -- message, the queue is left as a receive from its list leaves it, every other task of the
    -- table has seen a signal of the event of the queue, and each queue keeps its owner, its event
    -- and its size.
    pub os_msg_q_receive-Moved :
        (d : Msg) (l : List Msg) (async : ℕ) (cb : Option (Os → Result Os))
        → deliver (contents (target_queue os)) [] ≡ some (d, l)
        → Returns (os_msg_q_receive cfg line task_id msg async cb os) (Moved d l)
    unfolding os_msg_q_receive
    os_msg_q_receive-Moved d l async cb due =
        Returns_bind (note_queue cfg task_id os) _ Noted (Moved d l) note_queue-Noted
          (λ (event, os₁) n.
            subst (λ e. Returns (receive_try cfg line task_id msg async cb e os₁) (Moved d l))
              (sym n.0) (receive_try-Moved d l async cb os₁ (refl, n.1, n.2, n.3) due))
