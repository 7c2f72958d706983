-- ===== src/System/Messages/Safety.antt =====
-- os_msgqueue/src/os_msgqueue.c: posting, receiving and ticking keep the state of the kernel
-- well-formed.
use coco_os.Base.{ℕ, ◌<◌, ◌≡◌, refl, ◌||◌, arith, inl, inr}
use coco_os.Base.Tests.{leb, ◌==◌, Bool-cases}
use coco_os.Base.Outcome.{Returns, Returns_bind}
use coco_os.Config.{Config}
use coco_os.MsgQueue.{
  Msg, OsQueue, Queues, Status, posted, received, no_queues, set_queue, queue_push, queue_receive,
  os_msg_post, os_msg_receive,
}
use coco_os.MsgQueue.Span.{IsQueue}
use coco_os.MsgQueue.Post.{Posts, queue_push-Posts}
use coco_os.MsgQueue.Receive.{queue_receive-Receives}
use coco_os.System.{Os}
use coco_os.System.Invariant.{IsSound, IsWell, Keeps, Keeps-refl}

module _ (cfg : Config) (sound : IsSound cfg) where
  -- A valid queue in the place of a queue.
  pub set_queue-Keeps :
      (queue : ℕ) (q : OsQueue) (os : Os)
      → IsWell cfg os
      → IsQueue q
      → Keeps cfg os (record os { queues = set_queue queue q os.queues })
  set_queue-Keeps queue q os w v = (
    record {
      tasks_fit = w.tasks_fit;
      current = w.current;
      own_queue = w.own_queue;
      events_fit = w.events_fit;
      queues_fit = w.queues_fit;
      valid = λ k hk. elim (Bool-cases (queue == k)) [
        | inl here ↦ rw here v
        | inr other ↦ rw other (w.valid k hk)
      ];
      known = λ k hk. ground (arith, w.known k hk);
      distinct = w.distinct;
    },
    (refl, refl, refl, refl),
  )

  -- What a post or a receive leaves, with its status.
  abbrev pub Transfers : ℕ → Status → Os → Status × Msg × Queues → Type 0
  Transfers queue done os (s, m, qs) =
      Keeps cfg os (record os { queues = qs }) × (s ≡ done → queue < os.queues.n_queues)

  pub os_msg_post-Keeps :
      (msg : Msg) (queue delay period : ℕ) (os : Os)
      → IsWell cfg os
      → Returns (os_msg_post cfg msg queue delay period os.queues) (Transfers queue posted os)
  unfolding os_msg_post
  os_msg_post-Keeps msg queue delay period os w =
      elim (Bool-cases (no_queues cfg || leb os.queues.n_queues queue)) [
        | inl out ↦ rw out (Keeps-refl cfg os w, λ e. ground arith)
        | inr there ↦
            let h : queue < os.queues.n_queues = ground (arith, there) in
            let q = (os.queues.msg_q_list queue).q in
            let m : Msg = record msg { delay = delay; reload = period } in
            rw there (
              Returns_bind (queue_push q m) _ (Posts q m) _ (queue_push-Posts q m (w.valid queue h))
                (λ (s, q') p. (set_queue-Keeps queue q' os w p.0, λ e. h)))
      ]

  pub os_msg_receive-Keeps :
      (msg : Msg) (queue : ℕ) (os : Os)
      → IsWell cfg os
      → Returns (os_msg_receive cfg msg queue os.queues) (Transfers queue received os)
  unfolding os_msg_receive
  os_msg_receive-Keeps msg queue os w =
      elim (Bool-cases (no_queues cfg || leb os.queues.n_queues queue)) [
        | inl out ↦ rw out (Keeps-refl cfg os w, λ e. ground arith)
        | inr there ↦
            let h : queue < os.queues.n_queues = ground (arith, there) in
            let q = (os.queues.msg_q_list queue).q in
            rw there (
              Returns_bind (queue_receive msg q) _ _ _
                (queue_receive-Receives msg q (w.valid queue h))
                (λ (s, m, q') p. (set_queue-Keeps queue q' os w p.1, λ e. h)))
      ]
