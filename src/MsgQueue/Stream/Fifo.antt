-- ===== src/MsgQueue/Stream/Fifo.antt =====
-- os_msgqueue/src/os_msgqueue.c: with messages that are neither delayed nor periodic a queue is first
-- in, first out.
use coco_os.Base.{◌≡◌, List, [], ◌∷◌, ◌++◌}
use coco_os.Base.Lists.{All}
use coco_os.MsgQueue.{Msg, undef, def, empty, full, received, posted}
use coco_os.MsgQueue.Stream.{Transfer, post, receive, Answer}

-- Neither delayed nor periodic.
abbrev pub IsPlain : Msg → Type 0
IsPlain m = (m.delay ≡ 0) × (m.reload ≡ 0)

abbrev pub IsPlainPost : Transfer → Type 0
IsPlainPost (post m) = IsPlain m
IsPlainPost (receive m) = Unit {0}

-- The message that was accepted, or none, and the one that was received.
abbrev pub accepted : Answer → List Msg
accepted (posted, m) = m ∷ []
accepted (undef, m) = []
accepted (def, m) = []
accepted (empty, m) = []
accepted (full, m) = []
accepted (received, m) = []

abbrev pub delivered : Answer → List Msg
delivered (received, m) = m ∷ []
delivered (undef, m) = []
delivered (def, m) = []
delivered (empty, m) = []
delivered (full, m) = []
delivered (posted, m) = []

pub all_of : (Answer → List Msg) → List Answer → List Msg
all_of f [] = []
all_of f (a ∷ answers) = f a ++ all_of f answers

-- One call: what it delivers comes off the front, and what it accepts goes to the end.
abbrev InOrder : List Msg → Answer × List Msg → Type 0
InOrder l (a, l') = (delivered a ++ l' ≡ l ++ accepted a) × All IsPlain l'
