-- ===== src/MsgQueue/Stream.antt =====
-- os_msgqueue/src/os_msgqueue.c: posts and receives on one queue, in any order, next to a list.
pub mod Fifo
use coco_os.Base.{ℕ, ◌+◌, ◌≡◌, refl, arith, ◌∙◌, ap, inl, inr, List, [], ◌∷◌, ◌++◌}
use coco_os.Base.Tests.{◌==◌, if◌then◌else◌, Bool-cases}
use coco_os.Base.Lists.{length}
use coco_os.Base.Outcome.{Result, ok, ◌>>=◌, Returns, Returns_bind}
use mathlib.Core.Option.{Option, none, some}
use coco_os.MsgQueue.{
  Msg, Status, empty, full, received, posted, OsQueue, queue_push, queue_receive,
}
use coco_os.MsgQueue.Span.{IsQueue, contents}
use coco_os.MsgQueue.Post.{Posts, queue_push-Posts}
use coco_os.MsgQueue.Receive.{Receives, deliver, queue_receive-Receives}

-- A receive is given the message that it may overwrite.
pub data Transfer : Type 0 where
  post receive : Msg → Transfer

-- The status of a call, and the message that it leaves with its caller.
abbrev pub Answer : Type 0
Answer = Status × Msg

transfer : Transfer → OsQueue → Result (Answer × OsQueue)
transfer (post m) q = queue_push q m >>= λ (s, q'). ok ((s, m), q')
transfer (receive m) q = queue_receive m q >>= λ (s, m', q'). ok ((s, m'), q')

pub transfers : List Transfer → OsQueue → Result (List Answer × OsQueue)
transfers [] q = ok ([], q)
transfers (t ∷ ts) q = transfer t q >>= λ (a, q₁). transfers ts q₁ >>= λ (as₂, q₂). ok (a ∷ as₂, q₂)

-- The same on the list of the messages, of which there may be one less than the queue has slots.
abbrev pub taken : Msg → List Msg → Option (Msg × List Msg) → Answer × List Msg
taken m l none = ((empty, m), l)
taken m l (some (d, rest)) = ((received, d), rest)

abbrev pub list_transfer : ℕ → Transfer → List Msg → Answer × List Msg
list_transfer size (post m) l =
    if length l + 1 == size then ((full, m), l) else ((posted, m), l ++ m ∷ [])
list_transfer size (receive m) l = taken m l (deliver l [])

unfoldable pub list_transfers : ℕ → List Transfer → List Msg → List Answer × List Msg
list_transfers size [] l = ([], l)
list_transfers size (t ∷ ts) l =
    let (a, l₁) = list_transfer size t l in
    let (as₂, l₂) = list_transfers size ts l₁ in (a ∷ as₂, l₂)

-- A queue of the size that answers and holds what the list does.
abbrev Agrees : ℕ → Answer × List Msg → Answer × OsQueue → Type 0
Agrees size (a, l) (b, q) = (b ≡ a) × (contents q ≡ l) × IsQueue q × (q.size ≡ size)

answered :
    (m : Msg) (q : OsQueue) (o : Option (Msg × List Msg)) (r : Status × Msg × OsQueue)
    → Receives m q o r
    → IsQueue r.2
    → r.2.size ≡ q.size
    → Agrees q.size (taken m (contents q) o) ((r.0, r.1), r.2)
answered m q none (s, m', q') h v e =
    (ap (λ s. (s, m')) h.0 ∙ ap (λ m. (empty, m)) h.1, ap contents h.2, v, e)
answered m q (some (d, l)) (s, m', q') h v e =
    (ap (λ s. (s, m')) h.0 ∙ ap (λ m. (received, m)) h.1, h.2, v, e)

transfer-Agrees :
    (t : Transfer) (q : OsQueue)
    → IsQueue q
    → Returns (transfer t q) (Agrees q.size (list_transfer q.size t (contents q)))
unfolding transfer
transfer-Agrees (post m) q v =
    Returns_bind (queue_push q m) _ (Posts q m) _ (queue_push-Posts q m v) (λ (s, q') p.
      elim (Bool-cases (length (contents q) + 1 == q.size)) [
        | inl no_room ↦
            let k = p.2 (ground (arith, no_room)) in
            rw no_room (ap (λ s. (s, m)) k.0, ap contents k.1, p.0, p.1)
        | inr room ↦
            let k = p.3 (ground (arith, room)) in rw room (ap (λ s. (s, m)) k.0, k.1, p.0, p.1)
      ])
transfer-Agrees (receive m) q v =
    Returns_bind (queue_receive m q) _ _ _ (queue_receive-Receives m q v)
      (λ (s, m', q') p. answered m q (deliver (contents q) []) (s, m', q') p.0 p.1 p.2)

-- Any sequence of posts and receives on a valid queue returns. Every call gives the status and the
-- message that it gives on a list of at most one message less than there are slots, and at the end the
-- queue is valid and holds that list.
pub transfers-list_transfers :
    (ts : List Transfer) (q : OsQueue)
    → IsQueue q
    → Returns (transfers ts q) (λ (answers, q').
      (answers ≡ (list_transfers q.size ts (contents q)).0)
      × (contents q' ≡ (list_transfers q.size ts (contents q)).1)
      × IsQueue q')
unfolding transfers list_transfers
transfers-list_transfers [] q v = (refl, refl, v)
transfers-list_transfers (t ∷ ts) q v =
    Returns_bind (transfer t q) _ (Agrees q.size (list_transfer q.size t (contents q))) _
      (transfer-Agrees t q v)
      (λ (a, q₁) h.
        Returns_bind (transfers ts q₁) _ _ _ (transfers-list_transfers ts q₁ h.2)
          (λ (answers, q₂) k.
            let l₁ = (list_transfer q.size t (contents q)).1 in
            let same : list_transfers q₁.size ts (contents q₁) ≡ list_transfers q.size ts l₁ =
              ap (λ n. list_transfers n ts (contents q₁)) h.3 ∙ ap (list_transfers q.size ts) h.1 in
            (
              ap (λ b. b ∷ answers) h.0
                  ∙ ap (λ bs. (list_transfer q.size t (contents q)).0 ∷ bs)
                      (k.0 ∙ ap (λ r. r.0) same),
              k.1 ∙ ap (λ r. r.1) same,
              k.2,
            )))
