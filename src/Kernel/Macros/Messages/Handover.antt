-- ===== src/Kernel/Macros/Messages/Handover.antt =====
-- os_msgqueue/include/os_msgqueue.h: a task that waits in OS_MSG_Q_RECEIVE or OS_MSG_Q_POST, and the
-- turn of the task that it waits for.
use coco_os.Base.{◌≢◌, ℕ, ◌/◌, ◌%◌, ◌<◌, ◌≡◌, refl, sym, ap, ◌∙◌, Bool, true, arith, inr, List}
use coco_os.Base.Bits.{has_bit-set_bit}
use coco_os.Config.{Config}
use coco_os.Task.{Tcb, waiting_event, ready}
use coco_os.Task.Events.{awaits}
use coco_os.Task.Events.Signal.{signaled}
use coco_os.MsgQueue.{Msg, Status, Queues, os_msg_q_find}
use coco_os.MsgQueue.Span.{contents}
use coco_os.System.{Os}
use coco_os.System.Invariant.{IsSound, IsWell}
use coco_os.Kernel.Macros.Messages.{status_code}
use coco_os.Kernel.Macros.Messages.Rounds.{Ends}
use coco_os.Kernel.Macros.Messages.Owners.{find-SameOwners}
use coco_os.Kernel.Macros.Messages.Change.{waits_with}
use coco_os.Kernel.Macros.Messages.Delivery.{Moved}

-- A task that waits for a signal of the event, with the status of its last round.
pub record WaitsFor (s : Status) (event : ℕ) (t : Tcb) : Type 0 where
  pub state : t.state ≡ waiting_event
  pub single : t.wait_single_event ≡ true
  pub listed : awaits t event ≡ true
  pub result : t.msg_result ≡ status_code s
  pub change : t.msg_change_event ≡ event

signaled-WaitsFor :
    (cfg : Config) (s : Status) (event : ℕ) (t : Tcb)
    → WaitsFor s event t
    → let t' = signaled cfg event t in
      (t'.state ≡ ready) × (t'.msg_result ≡ status_code s) × (t'.msg_change_event ≡ event)
unfolding signaled
signaled-WaitsFor cfg s event t h = ground arith

pub waits_with-WaitsFor :
    (cfg : Config) (line event : ℕ) (s : Status) (t : Tcb)
    → t.event_queue (event / 8) < 256
    → t.msg_change_event ≡ event
    → WaitsFor s event (waits_with cfg line event s t)
waits_with-WaitsFor cfg line event s t byte noted = record {
  state = refl;
  single = refl;
  listed = ground (
    arith,
    has_bit-set_bit (t.event_queue (event / 8)) (event % 8) (event % 8) byte (omega arith)
        (omega arith),
  );
  result = refl;
  change = noted;
}

-- The task `tid` runs.
abbrev pub run : ℕ → Os → Os
run tid os = record os { running_tid = tid }

pub run-IsWell :
    (cfg : Config) (tid : ℕ) (os : Os)
    → IsWell cfg os
    → tid < os.tasks.n_tasks
    → IsWell cfg (run tid os)
run-IsWell cfg tid os w h = record {
  tasks_fit = w.tasks_fit;
  current = inr h;
  own_queue = w.own_queue;
  events_fit = w.events_fit;
  queues_fit = w.queues_fit;
  valid = w.valid;
  known = w.known;
  distinct = w.distinct;
}

module _ (cfg : Config) (task_id : ℕ) where
  abbrev pub queue_of : Queues → ℕ
  queue_of qs = os_msg_q_find cfg task_id qs

  abbrev pub contents_of : Queues → List Msg
  contents_of qs = contents (qs.msg_q_list (queue_of qs)).q

  abbrev pub size_of : Queues → ℕ
  size_of qs = (qs.msg_q_list (queue_of qs)).q.size

  abbrev pub event_of : Queues → ℕ
  event_of qs = (qs.msg_q_list (queue_of qs)).change

  -- The queue holds `l`, and the task `me`, which waited for it, is ready with all that it needs to
  -- go on.
  abbrev pub Woken : ℕ → Status → ℕ → List Msg → Os → Type 0
  Woken me s size l os =
      IsWell cfg (run me os)
      × (me < os.tasks.n_tasks)
      × (queue_of os.queues < os.queues.n_queues)
      × (contents_of os.queues ≡ l)
      × (size_of os.queues ≡ size)
      × ((os.tasks.task_list me).state ≡ ready)
      × ((os.tasks.task_list me).msg_result ≡ status_code s)
      × ((os.tasks.task_list me).msg_change_event ≡ event_of os.queues)

  -- The other task has posted or received, and given no reason to wait on.
  pub Moved-Woken :
      (sound : IsSound cfg) (line : ℕ) (msg : Msg) (os : Os) (w : IsWell cfg os)
      (runs : os.running_tid < os.tasks.n_tasks) (me : ℕ) (s : Status) (m : Msg) (l : List Msg)
      (r : Bool × Msg × Os)
      → me < os.tasks.n_tasks
      → me ≢ os.running_tid
      → queue_of os.queues < os.queues.n_queues
      → WaitsFor s (event_of os.queues) (os.tasks.task_list me)
      → Moved cfg sound line task_id msg os w runs m l r
      → Ends cfg sound line os r
      → Woken me s (size_of os.queues) l r.2
  Moved-Woken sound line msg os w runs me s m l (y, m', os') inside other there waits k f =
      let kept = find-SameOwners cfg task_id os.queues os'.queues k.4 in
      let t = signaled-WaitsFor cfg s (event_of os.queues) (os.tasks.task_list me) waits in
      let now = k.3 me inside other in
      let inside' : me < os'.tasks.n_tasks = omega (arith, f.1) in
      (
        run-IsWell cfg me os' f.0 inside',
        inside',
        rw kept (omega (arith, k.4.0)),
        rw kept (k.2),
        ap (λ (i : ℕ). (os'.queues.msg_q_list i).q.size) kept ∙ k.4.3 (queue_of os.queues),
        ap (λ (t : Tcb). t.state) now ∙ t.0,
        ap (λ (t : Tcb). t.msg_result) now ∙ t.1,
        ap (λ (t : Tcb). t.msg_change_event) now
            ∙ t.2
            ∙ sym (k.4.2 (queue_of os.queues))
            ∙ ap (λ (i : ℕ). (os'.queues.msg_q_list i).change) (sym kept),
      )
