-- ===== src/System/Messages/Aging.antt =====
-- os_msgqueue/src/os_msgqueue.c: the messages of a queue before and after a tick.
use coco_os.Base.{ℕ, ◌+◌, ◌-◌, ◌<◌, ◌≡◌, ◌≢◌, Bool, true, false, ◌&&◌, ◌||◌, arith}
use coco_os.Base.Tests.{ltb, if◌then◌else◌}
use coco_os.MsgQueue.{Msg, OsQueue}
use coco_os.MsgQueue.Span.{next, gap}

-- A slot that holds a message: between `t` and `h`, round the buffer.
abbrev pub between : ℕ → ℕ → ℕ → Bool
between t h i = if ltb t h then ltb t i && ltb i h else ltb t i || ltb i h

-- A message after a tick.
abbrev pub aged : Msg → Msg
aged m = if ltb 0 m.delay then record m { delay = m.delay - 1 } else m

-- The messages of `q` behind `t` have aged, and nothing else of it has changed.
abbrev pub Aged : OsQueue → ℕ → OsQueue → Type 0
Aged q t q' =
    (q'.size ≡ q.size)
    × (q'.head ≡ q.head)
    × (q'.tail ≡ q.tail)
    × (q'.message_size ≡ q.message_size)
    × ((i : ℕ)
        → i < q.size
        → q'.list i ≡ (if between t q.head i then aged (q.list i) else q.list i))

pub none_behind : (size t i : ℕ) → t < size → i < size → between t (next size t) i ≡ false
none_behind size t i ht hi = ground arith

pub first_behind :
    (size t h : ℕ) → t < size → h < size → next size t ≢ h → between t h (next size t) ≡ true
first_behind size t h ht hh ne = ground arith

pub others_behind :
    (size t h i : ℕ)
    → t < size
    → h < size
    → i < size
    → next size t ≢ h
    → i ≢ next size t
    → between t h i ≡ between (next size t) h i
others_behind size t h i ht hh hi ne ni = ground arith

pub gap_le : (size t h : ℕ) → t < size → h < size → gap size t h < size + 1
gap_le size t h ht hh = ground arith

pub gap_shrinks :
    (size t h : ℕ) → t < size → h < size → next size t ≢ h → gap size (next size t) h < gap size t h
gap_shrinks size t h ht hh ne = ground arith
