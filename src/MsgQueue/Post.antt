-- ===== src/MsgQueue/Post.antt =====
-- `queue_push` and `os_msg_post` of os_msgqueue/src/os_msgqueue.c against a bounded list.
use coco_os.Base.{◌+◌, ◌≡◌, ◌≢◌, [], ◌∷◌, ◌++◌, arith}
use coco_os.Base.Lists.{length}
use coco_os.Base.Outcome.{Returns}
use coco_os.MsgQueue.{Msg, OsQueue, Status, full, posted, queue_push}
use coco_os.MsgQueue.Span.{contents, IsQueue, span-put, length-span, mod-next}

-- A queue of `size` slots takes `size - 1` messages: a message is refused when there are so many, and
-- else goes to the end. The status, the contents and the validity after a post.
abbrev pub Posts : OsQueue → Msg → Status × OsQueue → Type 0
Posts q m (s, q') =
    IsQueue q'
    × (q'.size ≡ q.size)
    × ((length (contents q) + 1 ≡ q.size) → (s ≡ full) × (q' ≡ q))
    × ((length (contents q) + 1 ≢ q.size) → (s ≡ posted) × (contents q' ≡ contents q ++ m ∷ []))

-- A post to a valid queue returns, keeps it valid and of its size; it returns MSG_QUEUE_FULL and
-- changes nothing just when the queue holds one message less than it has slots, and else returns
-- MSG_QUEUE_POSTED with the message at the end of the contents.
pub queue_push-Posts : (q : OsQueue) (m : Msg) → IsQueue q → Returns (queue_push q m) (Posts q m)
unfolding queue_push
queue_push-Posts q m v = ground (
  arith,
  length-span q q.tail v.tail_in v.head_in,
  span-put q q.tail v.tail_in v.head_in m,
  mod-next q.size q.head v.head_in,
)
