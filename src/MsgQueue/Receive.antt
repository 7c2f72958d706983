-- ===== src/MsgQueue/Receive.antt =====
-- `os_msg_receive` of os_msgqueue/src/os_msgqueue.c against a list of messages.
use coco_os.Base.{
  ◌∙◌, ◌||◌, not, not, ◌+◌, sym, ◌≤◌, ◌≢◌, inr, inl, ℕ, zero, suc, ◌<◌, ◌≡◌, refl, Bool, true,
  false, List, [], ◌∷◌, ◌++◌, arith,
}
use coco_os.Base.Tests.{◌==◌, if◌then◌else◌, Bool-cases}
use coco_os.Base.Lists.{length}
use coco_os.Base.Outcome.{◌>>=◌, Returns_bind, Returns, ok}
use mathlib.Core.List.{append-nil, append_assoc}
use mathlib.Core.Option.{Option, none, some}
use coco_os.MsgQueue.{
  queue_receive, receive_round, Round, put_back, receive_from, Msg, OsQueue, Status, empty,
  received, is_due, is_periodic, restart, all_delayed_from,
}
use coco_os.MsgQueue.Span.{
  length-span, span-put, IsQueue, next, contents, span, span-nil, span-cons, mod-next,
}

-- The list that a receive leaves: the first message that is due is taken out, those before it go to
-- the end in their order, and behind them the message itself if it is periodic.
unfoldable pub deliver : List Msg → List Msg → Option (Msg × List Msg)
deliver [] back = none
deliver (m ∷ ms) back =
    let rest = deliver ms (back ++ m ∷ []) in
    if is_due m
    then some (restart m, ms ++ back ++ (if is_periodic m then restart m ∷ [] else []))
    else rest

pub all_waiting : List Msg → Bool
all_waiting [] = true
all_waiting (m ∷ ms) = let rest = all_waiting ms in if is_due m then false else rest

-- What `queue_receive` gives back for each answer of `deliver`.
abbrev pub Receives : Msg → OsQueue → Option (Msg × List Msg) → Status × Msg × OsQueue → Type 0
Receives msg q none (s, m, q') = (s ≡ empty) × (m ≡ msg) × (q' ≡ q)
Receives msg q (some (d, l)) (s, m, q') = (s ≡ received) × (m ≡ d) × (contents q' ≡ l)

all_waiting-deliver : (ms back : List Msg) → all_waiting ms ≡ true → deliver ms back ≡ none
unfolding all_waiting deliver
all_waiting-deliver [] back h = refl
all_waiting-deliver (m ∷ ms) back h = ground (arith, all_waiting-deliver ms (back ++ m ∷ []))

deliver-some :
    (ms back : List Msg)
    → all_waiting ms ≡ false
    → (d : Msg × List Msg) × (deliver ms back ≡ some d)
unfolding all_waiting deliver
deliver-some [] back h = ground arith
deliver-some (m ∷ ms) back h = elim (Bool-cases (is_due m)) [
  | inl due ↦ ((restart m, ms ++ back ++ (if is_periodic m then restart m ∷ [] else [])), rw due)
  | inr later ↦
      let (d, e) = deliver-some ms (back ++ m ∷ []) (ground arith) in (d, ground (arith, e))
]

module _ (q : OsQueue) (hh : q.head < q.size) where
  -- `MsgQAllDelayed` ends, and says whether no message is due.
  all_delayed_from_lem :
      (fuel t : ℕ)
      → t < q.size
      → length (span q t) < fuel
      → all_delayed_from fuel q (next q.size t) ≡ ok (all_waiting (span q t))
  unfolding all_delayed_from all_waiting
  all_delayed_from_lem zero t ht hf = absurd (omega arith)
  all_delayed_from_lem (suc fuel) t ht hf = elim (Bool-cases (next q.size t == q.head)) [
    | inl last ↦ ground (arith, span-nil q t ht hh)
    | inr more ↦ ground (
      arith,
      span-cons q t ht hh,
      mod-next q.size (next q.size t),
      all_delayed_from_lem fuel (next q.size t),
    )
  ]

abbrev PutBack : OsQueue → ℕ → Msg → OsQueue → Type 0
PutBack q t m q' = IsQueue q' × (q'.size ≡ q.size) × (span q' t ≡ span q t ++ m ∷ [])

-- A message that is put back comes last.
put_back_lem :
    (q : OsQueue) (t : ℕ) (m : Msg)
    → IsQueue q
    → t < q.size
    → q.head ≢ t
    → Returns (put_back q m) (PutBack q t m)
put_back_lem q t m v ht ne =
    ground (arith, mod-next q.size q.head v.head_in, span-put q t ht v.head_in m)

span-moved : (q : OsQueue) (t : ℕ) → span (record q { tail = t }) t ≡ span q t
unfolding span
span-moved q t = refl

-- A round takes the first message off, and puts it back at the end if it is not due or is periodic.
record IsRound (q : OsQueue) (t : ℕ) (m : Msg) (ms : List Msg) (r : Round) : Type 0 where
  found : r.found ≡ is_due m
  msg : r.msg ≡ restart m
  tail : r.tail ≡ next q.size t
  valid : IsQueue r.queue
  size : r.queue.size ≡ q.size
  left :
      span r.queue r.tail ≡ (if not (is_due m) || is_periodic m then ms ++ restart m ∷ [] else ms)

first-cons :
    (q : OsQueue) (t : ℕ) (m : Msg) (ms : List Msg)
    → IsQueue q
    → t < q.size
    → span q t ≡ m ∷ ms
    → (next q.size t ≢ q.head)
      × (next q.size t < q.size)
      × (q.list (next q.size t) ≡ m)
      × (span q (next q.size t) ≡ ms)
first-cons q t m ms v ht e = ground (arith, span-nil q t ht v.head_in, span-cons q t ht v.head_in)

receive_round-IsRound :
    (q : OsQueue) (t : ℕ) (m : Msg) (ms : List Msg)
    → IsQueue q
    → t < q.size
    → span q t ≡ m ∷ ms
    → Returns (receive_round q t) (IsRound q t m ms)
unfolding receive_round
receive_round-IsRound q t m ms v ht e =
    let (ne, ht', here, rest) = first-cons q t m ms v ht e in
    ground (
      arith,
      mod-next q.size t ht,
      mod-next q.size q.head v.head_in,
      span-put q (next q.size t) ht' v.head_in (restart m),
    )

-- What the loop has when it stops: the message, and the queue with its tail moved.
abbrev Ends : ℕ → Msg → List Msg → Msg × OsQueue → Type 0
Ends size d l (m, q') = (m ≡ d) × (contents q' ≡ l) × IsQueue q' × (q'.size ≡ size)

stop-Ends :
    (q : OsQueue) (t : ℕ) (m : Msg) (ms back : List Msg) (r : Round) (d : Msg) (l : List Msg)
    → t < q.size
    → IsRound q t m (ms ++ back) r
    → is_due m ≡ true
    → deliver (m ∷ ms) back ≡ some (d, l)
    → Ends q.size d l (r.msg, record (r.queue) { tail = r.tail })
unfolding deliver
stop-Ends q t m ms back r d l ht h due del =
    let v = h.valid in
    (
      ground arith,
      span-moved r.queue r.tail ∙ h.left ∙ ground (arith, append-nil (ms ++ back)),
      record { slots = v.slots; byte = v.byte; head_in = v.head_in; tail_in = ground arith },
      h.size,
    )

receive_from-Ends :
    (fuel : ℕ) (ms back : List Msg) (q : OsQueue) (t : ℕ) (d : Msg) (l : List Msg)
    → IsQueue q
    → t < q.size
    → length ms ≤ fuel
    → span q t ≡ ms ++ back
    → deliver ms back ≡ some (d, l)
    → Returns (receive_from fuel q t) (Ends q.size d l)
unfolding receive_from deliver
receive_from-Ends fuel [] back q t d l v ht hf e del = ground arith
receive_from-Ends zero (m ∷ ms) back q t d l v ht hf e del = absurd (omega arith)
receive_from-Ends (suc fuel) (m ∷ ms) back q t d l v ht hf e del =
    Returns_bind (receive_round q t) _ (IsRound q t m (ms ++ back)) (Ends q.size d l)
      (receive_round-IsRound q t m (ms ++ back) v ht e)
      λ r h. elim (Bool-cases (is_due m)) [
        | inl due ↦
            rw (h.found, due) (stop-Ends q t m ms back r d l ht h due (unfold deliver in del))
        | inr later ↦
            let rest =
              receive_from-Ends fuel ms (back ++ m ∷ []) r.queue r.tail d l h.valid (ground arith)
                (omega arith) (ground (arith, append_assoc ms back (m ∷ []))) (ground arith) in
            ground (arith, rest)
      ]

module _ (msg : Msg) (q : OsQueue) (v : IsQueue q) where
  delayed : all_delayed_from (q.size + 1) q (next q.size q.tail) ≡ ok (all_waiting (contents q))
  delayed =
      all_delayed_from_lem q v.head_in (q.size + 1) q.tail v.tail_in
        (ground (arith, length-span q q.tail v.tail_in v.head_in))

  receive_nothing : all_waiting (contents q) ≡ true → queue_receive msg q ≡ ok (empty, msg, q)
  unfolding queue_receive
  receive_nothing h = ground (arith, mod-next q.size q.tail v.tail_in, delayed)

  receive_some :
      all_waiting (contents q) ≡ false
      → queue_receive msg q ≡ (receive_from q.size q q.tail >>= λ (m, q'). ok (received, m, q'))
  unfolding queue_receive all_waiting
  receive_some h =
      ground
        (arith, mod-next q.size q.tail v.tail_in, delayed, span-nil q q.tail v.tail_in v.head_in)

-- A receive from a valid queue returns and keeps it valid. With no message due it returns
-- MSG_QUEUE_EMPTY and changes nothing. Otherwise it returns MSG_QUEUE_RECEIVED with the first message
-- that is due, its delay restarted if it is periodic, and leaves the list that `deliver` says.
pub queue_receive-Receives :
    (msg : Msg) (q : OsQueue)
    → IsQueue q
    → Returns
        (queue_receive msg q)
        (λ r. Receives msg q (deliver (contents q) []) r × IsQueue r.2 × (r.2.size ≡ q.size))
queue_receive-Receives msg q v = elim (Bool-cases (all_waiting (contents q))) [
  | inl nothing ↦
      rw (receive_nothing msg q v nothing, all_waiting-deliver (contents q) [] nothing)
        ((refl, refl, refl), v, refl)
  | inr some_due ↦
      let ((d, l), e) = deliver-some (contents q) [] some_due in
      rw (receive_some msg q v some_due, e)
        (Returns_bind (receive_from q.size q q.tail) _ (Ends q.size d l) _
          (receive_from-Ends q.size (contents q) [] q q.tail d l v v.tail_in
            (ground (arith, length-span q q.tail v.tail_in v.head_in))
            (sym (append-nil (contents q))) e)
          λ r h. ((refl, h.0, h.1), h.2, h.3))
]
