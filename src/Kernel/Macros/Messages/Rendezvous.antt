-- ===== src/Kernel/Macros/Messages/Rendezvous.antt =====
-- os_msgqueue/include/os_msgqueue.h: the turns of a task that waits in OS_MSG_Q_RECEIVE until another
-- posts, or in OS_MSG_Q_POST until another receives.
use coco_os.Base.{
  ◌≢◌, ℕ, ◌+◌, ◌<◌, ◌≡◌, refl, sym, Bool, false, arith, inl, inr, List, [], ◌∷◌, ◌++◌,
}
use mathlib.Core.Path.{subst}
use mathlib.Core.List.{append_assoc}
use coco_os.Base.Tests.{lt→ltb, Bool-cases}
use coco_os.Base.Lists.{length}
use coco_os.Base.Outcome.{Result, Returns, Returns_mono, Returns_and_Safe, Safe}
use mathlib.Core.Option.{none, some}
use coco_os.Config.{Config}
use coco_os.Task.{task_at}
use coco_os.Task.Fields.{os_task_get_msg_result, os_task_get_change_event}
use coco_os.MsgQueue.{Msg, Status, empty, full, Queues, is_due}
use coco_os.MsgQueue.Receive.{deliver}
use coco_os.System.{Os}
use coco_os.System.Invariant.{IsSound, IsWell}
use coco_os.Kernel.Macros.Messages.{
  os_msg_q_post, os_msg_q_receive, post_try, post_resume, receive_try, receive_resume,
}
use coco_os.Kernel.Macros.Messages.Rounds.{Ends}
use coco_os.Kernel.Macros.Messages.Safety.{os_msg_q_post-Ends, os_msg_q_receive-Ends}
use coco_os.Kernel.Macros.Messages.Owners.{find-SameOwners}
use coco_os.Kernel.Macros.Messages.Delivery.{
  Moved, os_msg_q_post-Moved, post_try-Moved, os_msg_q_receive-Moved, receive_try-Moved,
}
use coco_os.Kernel.Macros.Messages.Handover.{
  WaitsFor, run, run-IsWell, queue_of, contents_of, size_of, event_of, Woken, Moved-Woken,
}

-- Behind messages that wait, the first message that is due is the one at the end.
deliver-last :
    (c back : List Msg) (m : Msg)
    → m.delay ≡ 0
    → m.reload ≡ 0
    → deliver c back ≡ none
    → deliver (c ++ m ∷ []) back ≡ some (m, back ++ c)
unfolding deliver
deliver-last [] back m now once h = ground arith
deliver-last (x ∷ c) back m now once h = elim (Bool-cases (is_due x)) [
  | inl due ↦ ground arith
  | inr later ↦
      ground (arith, deliver-last c (back ++ x ∷ []) m now once, append_assoc back (x ∷ []) c)
]

-- The message as it is posted, at once and once.
abbrev pub sent : Msg → Msg
sent m = record m { delay = 0; reload = 0 }

-- The macro is done with the message `m`, and the queue of the task holds `l`.
abbrev pub Done : Config → ℕ → Msg → List Msg → Bool × Msg × Os → Type 0
Done cfg task_id m l (yielded, m', os) =
    (yielded ≡ false) × (m' ≡ m) × (contents_of cfg task_id os.queues ≡ l)

module _ (cfg : Config) (sound : IsSound cfg) (task_id : ℕ) where
  -- A call on the queue of the task in a state whose queues are `qs`, while `me` waits for it: what
  -- the call does to the queue is what `me` finds.
  Returns-Woken :
      (line : ℕ) (msg : Msg) (os : Os) (w : IsWell cfg os)
      (runs : os.running_tid < os.tasks.n_tasks) (me : ℕ) (s : Status) (m : Msg) (l : List Msg)
      (r : Result (Bool × Msg × Os))
      → me < os.tasks.n_tasks
      → me ≢ os.running_tid
      → queue_of cfg task_id os.queues < os.queues.n_queues
      → WaitsFor s (event_of cfg task_id os.queues) (os.tasks.task_list me)
      → Returns r (Moved cfg sound line task_id msg os w runs m l)
      → Safe r (Ends cfg sound line os)
      → Returns r (λ (y, m', os').
        (y ≡ false) × (m' ≡ m) × Woken cfg task_id me s (size_of cfg task_id os.queues) l os')
  Returns-Woken line msg os w runs me s m l r inside other there waits k f =
      Returns_mono r
        (λ a. Moved cfg sound line task_id msg os w runs m l a × Ends cfg sound line os a) _
        (Returns_and_Safe r (Moved cfg sound line task_id msg os w runs m l)
          (Ends cfg sound line os) k f)
        (λ (y, m', os') (p, e). (
          p.0,
          p.1,
          Moved-Woken cfg task_id sound line msg os w runs me s m l (y, m', os') inside other there
              waits p e,
        ))

  -- Another task posts, in a state with the queues `qs`.
  pub posted_wakes :
      (line other me : ℕ) (m : Msg) (os : Os) (qs : Queues)
      → IsWell cfg os
      → os.queues ≡ qs
      → other < os.tasks.n_tasks
      → me < os.tasks.n_tasks
      → me ≢ other
      → queue_of cfg task_id qs < qs.n_queues
      → length (contents_of cfg task_id qs) + 1 ≢ size_of cfg task_id qs
      → WaitsFor empty (event_of cfg task_id qs) (os.tasks.task_list me)
      → Returns (os_msg_q_post cfg line task_id m 0 0 0 (run other os)) (λ (y, m', os').
        (y ≡ false)
        × (m' ≡ sent m)
        × Woken cfg task_id me empty
            (size_of cfg task_id qs)
            (contents_of cfg task_id qs ++ sent m ∷ [])
            os')
  posted_wakes line other me m os qs w e inside inside' differ there room waits =
      let w' = run-IsWell cfg other os w inside in
      let there' : queue_of cfg task_id os.queues < os.queues.n_queues = rw e there in
      let room' : length (contents_of cfg task_id os.queues) + 1 ≢ size_of cfg task_id os.queues =
        rw e room in
      subst
        (λ (qs : Queues).
          Returns (os_msg_q_post cfg line task_id m 0 0 0 (run other os)) (λ (y, m', os').
            (y ≡ false)
            × (m' ≡ sent m)
            × Woken cfg task_id me empty (size_of cfg task_id qs)
                (contents_of cfg task_id qs ++ sent m ∷ []) os'))
        e
        (Returns-Woken line m (run other os) w' inside me empty (sent m)
          (contents_of cfg task_id os.queues ++ sent m ∷ [])
          (os_msg_q_post cfg line task_id m 0 0 0 (run other os)) inside' differ there'
          (subst (λ (qs : Queues). WaitsFor empty (event_of cfg task_id qs) (os.tasks.task_list me))
            (sym e) waits)
          (os_msg_q_post-Moved cfg sound line task_id m (run other os) w' inside there' 0 0 0 room')
          (os_msg_q_post-Ends cfg sound line task_id m (run other os) w' inside 0 0 0))

  -- Another task receives.
  pub received_wakes :
      (line other me : ℕ) (msg d : Msg) (l : List Msg) (os : Os) (qs : Queues)
      → IsWell cfg os
      → os.queues ≡ qs
      → other < os.tasks.n_tasks
      → me < os.tasks.n_tasks
      → me ≢ other
      → queue_of cfg task_id qs < qs.n_queues
      → deliver (contents_of cfg task_id qs) [] ≡ some (d, l)
      → WaitsFor full (event_of cfg task_id qs) (os.tasks.task_list me)
      → Returns (os_msg_q_receive cfg line task_id msg 0 none (run other os)) (λ (y, m', os').
        (y ≡ false) × (m' ≡ d) × Woken cfg task_id me full (size_of cfg task_id qs) l os')
  received_wakes line other me msg d l os qs w e inside inside' differ there due waits =
      let w' = run-IsWell cfg other os w inside in
      let there' : queue_of cfg task_id os.queues < os.queues.n_queues = rw e there in
      let due' : deliver (contents_of cfg task_id os.queues) [] ≡ some (d, l) = rw e due in
      subst
        (λ (qs : Queues).
          Returns (os_msg_q_receive cfg line task_id msg 0 none (run other os)) (λ (y, m', os').
            (y ≡ false) × (m' ≡ d) × Woken cfg task_id me full (size_of cfg task_id qs) l os'))
        e
        (Returns-Woken line msg (run other os) w' inside me full d l
          (os_msg_q_receive cfg line task_id msg 0 none (run other os)) inside' differ there'
          (subst (λ (qs : Queues). WaitsFor full (event_of cfg task_id qs) (os.tasks.task_list me))
            (sym e) waits)
          (os_msg_q_receive-Moved cfg sound line task_id msg (run other os) w' inside there' d l 0
            none due')
          (os_msg_q_receive-Ends cfg sound line task_id msg (run other os) w' inside 0 none tt))

  Moved-Done :
      (line : ℕ) (msg : Msg) (os : Os) (w : IsWell cfg os)
      (runs : os.running_tid < os.tasks.n_tasks) (m : Msg) (l : List Msg) (r : Bool × Msg × Os)
      → Moved cfg sound line task_id msg os w runs m l r
      → Done cfg task_id m l r
  Moved-Done line msg os w runs m l (y, m', os') k =
      (k.0, k.1, rw (find-SameOwners cfg task_id os.queues os'.queues k.4) (k.2))

  -- The receiver goes on, with the message at the end of its queue.
  pub receiver_goes_on :
      (line me size : ℕ) (msg m : Msg) (l : List Msg) (os : Os)
      → Woken cfg task_id me empty size (l ++ sent m ∷ []) os
      → deliver l [] ≡ none
      → Returns
          (receive_resume cfg line task_id msg 0 none (run me os))
          (Done cfg task_id (sent m) l)
  unfolding receive_resume os_task_get_msg_result os_task_get_change_event task_at
  receiver_goes_on line me size msg m l os k none_due =
      let small = lt→ltb me cfg.max_tasks (omega (arith, k.1, k.0.tasks_fit)) in
      let due : deliver (contents_of cfg task_id os.queues) [] ≡ some (sent m, [] ++ l) =
        rw (k.3) (deliver-last l [] (sent m) refl refl none_due) in
      rw small (
        rw (k.6, k.7)
          (Returns_mono
            (receive_try cfg line task_id msg 0 none (event_of cfg task_id os.queues) (run me os)) _
            (Done cfg task_id (sent m) l)
            (receive_try-Moved cfg sound line task_id msg (run me os) k.0 k.1 k.2 (sent m) l 0 none
              (run me os) (refl, refl, refl, λ j ne. refl) due)
            (Moved-Done line msg (run me os) k.0 k.1 (sent m) l)))

  -- The sender goes on, with room in the queue.
  pub sender_goes_on :
      (line me size : ℕ) (m : Msg) (l : List Msg) (os : Os)
      → Woken cfg task_id me full size l os
      → length l + 1 ≢ size
      → Returns
          (post_resume cfg line task_id m 0 0 0 (run me os))
          (Done cfg task_id (sent m) (l ++ sent m ∷ []))
  unfolding post_resume os_task_get_msg_result os_task_get_change_event task_at
  sender_goes_on line me size m l os k room =
      let small = lt→ltb me cfg.max_tasks (omega (arith, k.1, k.0.tasks_fit)) in
      let room' : length (contents_of cfg task_id os.queues) + 1 ≢ size_of cfg task_id os.queues =
        rw (k.3, k.4) room in
      rw small (
        rw (k.6, k.7)
          (subst
            (λ (c : List Msg).
              Returns
                (post_try cfg line task_id m 0 0 0 (event_of cfg task_id os.queues) (run me os))
                (Done cfg task_id (sent m) (c ++ sent m ∷ [])))
            (k.3)
            (Returns_mono
              (post_try cfg line task_id m 0 0 0 (event_of cfg task_id os.queues) (run me os)) _ _
              (post_try-Moved cfg sound line task_id m (run me os) k.0 k.1 k.2 0 0 0 (run me os)
                (refl, refl, refl, λ j ne. refl) room')
              (Moved-Done line m (run me os) k.0 k.1 (sent m)
                (contents_of cfg task_id os.queues ++ sent m ∷ [])))))
