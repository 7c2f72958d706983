-- ===== src/Kernel/Macros/Messages/Owners.antt =====
-- os_msgqueue/src/os_msgqueue.c: what a post or a receive leaves of the other fields of the queues.
use coco_os.Base.{ℕ, zero, suc, ◌+◌, ◌≡◌, refl, ap, arith}
use mathlib.Core.Path.{fun_ext}
use coco_os.Config.{Config}
use coco_os.MsgQueue.{OsQueue, OsMsgQ, Queues, set_queue, find_from, os_msg_q_find}

-- Each queue has the owner, the event and the size that it had.
abbrev pub SameOwners : Queues → Queues → Type 0
SameOwners qs qs' =
    (qs'.n_queues ≡ qs.n_queues)
    × ((k : ℕ) → (qs'.msg_q_list k).task_id ≡ (qs.msg_q_list k).task_id)
    × ((k : ℕ) → (qs'.msg_q_list k).change ≡ (qs.msg_q_list k).change)
    × ((k : ℕ) → (qs'.msg_q_list k).q.size ≡ (qs.msg_q_list k).q.size)

pub set_queue-SameOwners :
    (k : ℕ) (q : OsQueue) (qs : Queues)
    → q.size ≡ (qs.msg_q_list k).q.size
    → SameOwners qs (set_queue k q qs)
set_queue-SameOwners k q qs e = (refl, λ j. ground arith, λ j. ground arith, λ j. ground (arith, e))

-- To put a queue where it is changes nothing.
pub set_queue-same : (k : ℕ) (qs : Queues) → set_queue k (qs.msg_q_list k).q qs ≡ qs
set_queue-same k qs =
    ap (λ (f : ℕ → OsMsgQ). record qs { msg_q_list = f }) (fun_ext (λ i. ground arith))

-- A queue of the same owner is found at the same place.
find_from-SameOwners :
    (cfg : Config) (task_id n i : ℕ) (qs qs' : Queues)
    → SameOwners qs qs'
    → find_from cfg task_id n i qs' ≡ find_from cfg task_id n i qs
unfolding find_from
find_from-SameOwners cfg task_id zero i qs qs' h = refl
find_from-SameOwners cfg task_id (suc n) i qs qs' h =
    ground (arith, h.1 i, find_from-SameOwners cfg task_id n (i + 1) qs qs' h)

pub find-SameOwners :
    (cfg : Config) (task_id : ℕ) (qs qs' : Queues)
    → SameOwners qs qs'
    → os_msg_q_find cfg task_id qs' ≡ os_msg_q_find cfg task_id qs
unfolding os_msg_q_find
find-SameOwners cfg task_id qs qs' h =
    ground (arith, h.0, find_from-SameOwners cfg task_id qs.n_queues 0 qs qs' h)
