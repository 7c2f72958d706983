-- ===== src/Config.antt =====
-- os_utils/include/os_defines.h: what the user configures, the totals, and the reserved ids.
-- `N_TASKS` … are `#define`s of the user's `user_os_config.h`, so they are a parameter.
pub mod Sizes
use coco_os.Base.{ℕ, ◌+◌, ◌/◌, ◌<◌, Bool}

pub record Config : Type 0 where
  pub max_tasks : ℕ  -- N_TASKS
  pub max_queues : ℕ  -- N_QUEUES
  pub max_semaphores : ℕ  -- N_SEMAPHORES
  pub max_events : ℕ  -- N_EVENTS
  pub round_robin : Bool  -- ROUND_ROBIN

-- The static assertions.
pub record IsStatic (cfg : Config) : Type 0 where
  pub tasks : cfg.max_tasks < 255
  pub queues : cfg.max_queues < 255
  pub semaphores : cfg.max_semaphores < 255
  pub events : cfg.max_events < 255

-- N_TOTAL_SEMAPHORES
abbrev pub total_semaphores : Config → ℕ
total_semaphores cfg = cfg.max_semaphores + cfg.max_queues

-- N_TOTAL_EVENTS
abbrev pub total_events : Config → ℕ
total_events cfg = cfg.max_events + cfg.max_queues

-- EVENT_QUEUE_SIZE, of os_event/include/os_event.h, for a total of `n` events
abbrev pub queue_size : ℕ → ℕ
queue_size n = n / 9 + 1

abbrev pub event_queue_size : Config → ℕ
event_queue_size cfg = queue_size (total_events cfg)

abbrev pub no_tid : ℕ
no_tid = 255

abbrev pub no_event : ℕ
no_event = 255

abbrev pub no_queue : ℕ
no_queue = 255

abbrev pub no_sem : ℕ
no_sem = 255

abbrev pub no_msg_id : ℕ
no_msg_id = 255

abbrev pub isr_tid : ℕ
isr_tid = 254
