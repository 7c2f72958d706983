-- ===== src/MsgQueue/Span.antt =====
-- The messages of a queue of os_msgqueue/src/os_msgqueue.c: those between `tail` and `head`, both
-- exclusive, round the buffer. `tail` is an argument, since the loops move a copy of it.
use coco_os.Base.{ℕ, zero, suc, ◌+◌, ◌-◌, ◌%◌, ◌<◌, ◌≡◌, ◌≢◌, refl, ap, List, [], ◌∷◌, ◌++◌, arith}
use native.Mathlib.Nat.{mod-eq_of_lt, mod_self}
use coco_os.Base.Lists.{length}
use coco_os.Base.Tests.{ltb, ◌==◌, if◌then◌else◌}
use coco_os.Base.Arrays.{update}
use coco_os.MsgQueue.{Msg, OsQueue}

abbrev pub next : ℕ → ℕ → ℕ
next size x = if x + 1 == size then 0 else x + 1

pub mod-next : (size x : ℕ) → x < size → (x + 1) % size ≡ next size x
mod-next size x h = ground (arith, mod-eq_of_lt {n = x + 1} {m = size}, mod_self size)

-- How many slots lie between `t` and `h`.
abbrev pub gap : ℕ → ℕ → ℕ → ℕ
gap size t h = if ltb t h then h - t - 1 else h + size - t - 1

-- `n` messages from the slot `i` on, round the buffer
unfoldable pub window : (ℕ → Msg) → ℕ → ℕ → ℕ → List Msg
window list size i zero = []
window list size i (suc n) = list i ∷ window list size (next size i) n

unfoldable pub span : OsQueue → ℕ → List Msg
unfolding window
span q t = window q.list q.size (next q.size t) (gap q.size t q.head)

-- The messages of the queue, the oldest first.
abbrev pub contents : OsQueue → List Msg
contents q = span q q.tail

-- What `os_msgQ_create` makes of a pool of two messages or more, and what every operation keeps.
pub record IsQueue (q : OsQueue) : Type 0 where
  pub slots : 1 < q.size
  pub byte : q.size < 256
  pub head_in : q.head < q.size
  pub tail_in : q.tail < q.size

module _ (list : ℕ → Msg) (size : ℕ) (m : Msg) where
  -- Writing the slot behind a window makes it longer by that message.
  window-update :
      (n i h : ℕ)
      → i < size
      → n < size
      → h ≡ (if ltb (i + n) size then i + n else i + n - size)
      → window (update list h m) size i (suc n) ≡ window list size i n ++ m ∷ []
  unfolding window
  window-update zero i h hi hn e = ground arith
  window-update (suc n) i h hi hn e = ground (arith, window-update n (next size i) h)

module _ (q : OsQueue) (t : ℕ) (ht : t < q.size) (hh : q.head < q.size) where
  pub span-nil : next q.size t ≡ q.head → span q t ≡ []
  unfolding span window
  span-nil e = let g : gap q.size t q.head ≡ 0 = ground arith in rw g

  pub span-cons :
      next q.size t ≢ q.head → span q t ≡ q.list (next q.size t) ∷ span q (next q.size t)
  unfolding span window
  span-cons ne =
      let g : gap q.size t q.head ≡ suc (gap q.size (next q.size t) q.head) = ground arith in rw g

  -- A message that is written at the head comes last.
  pub span-put :
      (m : Msg)
      → q.head ≢ t
      → span (record q { list = update q.list q.head m; head = next q.size q.head }) t
        ≡ span q t ++ m ∷ []
  unfolding span
  span-put m ne =
      let g : gap q.size t (next q.size q.head) ≡ suc (gap q.size t q.head) = ground arith in
      rw g (
        window-update q.list q.size m (gap q.size t q.head) (next q.size t) q.head (ground arith)
          (ground arith) (ground arith))

  window-length : (n i : ℕ) → length (window q.list q.size i n) ≡ n
  unfolding window
  window-length zero i = refl
  window-length (suc n) i = ap suc (window-length n (next q.size i))

  pub length-span : length (span q t) ≡ gap q.size t q.head
  unfolding span
  length-span = window-length (gap q.size t q.head) (next q.size t)
