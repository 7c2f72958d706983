-- ===== src/Config/Sizes.antt =====
-- The size of the event wait queue, EVENT_QUEUE_SIZE of os_event/include/os_event.h.
use coco_os.Base.{ℕ, zero, suc, ◌+◌, ◌/◌, ◌%◌, ◌≤◌, ◌<◌, ◌↔◌, arith}
use coco_os.Config.{queue_size}

-- The bytes of a wait queue hold a bit for each of `n` events just when the quotient and the
-- remainder of `n` by 9 add up to at most 8; so they do up to 16 events, and never from 73 on.
pub queue_size_iff : (n : ℕ) → ((e : ℕ) → e < n → e / 8 < queue_size n) ↔ (n / 9 + n % 9 ≤ 8)
queue_size_iff n = (bounded n, λ h e he. omega arith)
  where
    bounded : (n : ℕ) → ((e : ℕ) → e < n → e / 8 < queue_size n) → n / 9 + n % 9 ≤ 8
    bounded zero h = omega arith
    bounded (suc m) h = let last : m / 8 < queue_size (suc m) = h m (omega arith) in omega arith
