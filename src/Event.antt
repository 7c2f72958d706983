-- ===== src/Event.antt =====
-- os_event/src/os_event.c: the list of events. The functions that also set tasks are in `System`.
pub mod Creation
use coco_os.Base.{ℕ, ◌+◌, ◌-◌, ◌%◌, Bool}
use coco_os.Base.Tests.{ltb, ◌==◌, if◌then◌else◌}
use coco_os.Base.Arrays.{update}
use coco_os.Base.Outcome.{Result, ok, os_assert, in_range, ◌>>◌}
use coco_os.Config.{Config, total_events, no_tid, no_event}

-- `Event_t`, both of a byte
pub record Event : Type 0 where
  pub id : ℕ
  pub signaled_by_tid : ℕ

-- The static variables of the file. They start as 0, 0 and NO_EVENT.
pub record Events : Type 0 where
  pub event_list : ℕ → Event
  pub n_events : ℕ  -- uint8
  pub last_signaled_event : ℕ

module _ (cfg : Config) where
  -- Of the build with no events each function is a constant or does nothing.
  abbrev pub no_events : Bool
  no_events = total_events cfg == 0

  unfoldable pub event_create : Events → Result (ℕ × Events)
  event_create es = if no_events then ok (0, es) else do
    os_assert (ltb es.n_events (total_events cfg))
    let n = (es.n_events + 1) % 256
    ok (
      (n + 256 - 1) % 256,
      record es {
        event_list =
            update es.event_list es.n_events
              (record { id = es.n_events; signaled_by_tid = no_tid });
        n_events = n;
      },
    )

  unfoldable pub os_event_init : Events → Events
  os_event_init es = if no_events then es else record es { n_events = 0 }

  pub event_signaling_task_id_get : ℕ → Events → Result ℕ
  event_signaling_task_id_get event es =
      if no_events
      then ok 0
      else do in_range (ltb event (total_events cfg)); ok (es.event_list event).signaled_by_tid

  pub event_last_signaled_get : Events → ℕ
  event_last_signaled_get es = if no_events then no_event else es.last_signaled_event

  unfoldable pub os_event_set_signaling_tid : ℕ → ℕ → Events → Result Events
  os_event_set_signaling_tid event tid es = if no_events then ok es else do
    in_range (ltb event (total_events cfg))
    ok (record es {
      event_list =
          update es.event_list event (record (es.event_list event) { signaled_by_tid = tid });
    })
