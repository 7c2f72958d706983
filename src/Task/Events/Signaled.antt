-- ===== src/Task/Events/Signaled.antt =====
-- os_task/src/os_task.c: what a signal means for the events that each task awaits.
use coco_os.Base.{
  ℕ, ◌/◌, ◌%◌, ◌<◌, ◌≤◌, ◌≡◌, ◌≢◌, ◌⊎◌, refl, inl, inr, Bool, true, false, ◌&&◌, not, arith, ◌∙◌,
  sym,
}
use mathlib.Core.Bool.{false≢true}
use mathlib.Core.Path.{subst}
use coco_os.Base.Bits.{has_bit}
use coco_os.Base.Tests.{◌==◌, Bool-cases}
use coco_os.Base.Outcome.{Returns, Returns_mono}
use coco_os.Config.{Config, event_queue_size}
use coco_os.Task.{Tcb, Tasks, is, is→eq, ready, waiting_event, waiting_event_timeout}
use coco_os.Task.Loop.{EachTask}
use coco_os.Task.Events.{awaits, is_waiting_event, drop_event, no_byte_set, os_task_signal_event}
use coco_os.Task.Events.Signal.{
  signaled, signaled_unmoved, signaled_last, signaled_more, os_task_signal_event_lem,
}
use coco_os.Task.Events.Waiting.{
  HasBytes, awaits-drop_event, drop_event-HasBytes, awaits-clear_wait_queue, no_byte_set_iff,
}
use coco_os.Task.Events.WaitAll.{Fits}

-- The task waits for an event, with a timeout or without.
abbrev pub InWait : Tcb → Type 0
InWait t = (t.state ≡ waiting_event) ⊎ (t.state ≡ waiting_event_timeout)

-- The bit of the event: each byte of the wait queue has those of eight events.
abbrev pub bit_of : Tcb → ℕ → Bool
bit_of t f = has_bit (t.event_queue (f / 8)) (f % 8)

module _ (cfg : Config) (e : ℕ) where
  -- No event but `e` is awaited.
  abbrev pub IsLast : Tcb → Type 0
  IsLast t = (f : ℕ) → Fits cfg f → f ≢ e → bit_of t f ≡ false

  -- The task does not wait for `e`, and is as it was.
  abbrev pub Passed : Tcb → Tcb → Type 0
  Passed t t' = ¬ (InWait t × (bit_of t e ≡ true)) × (t' ≡ t)

  -- The task is ready, and awaits nothing.
  abbrev pub Woken : Tcb → Tcb → Type 0
  Woken t t' =
      InWait t
      × (bit_of t e ≡ true)
      × ((t.wait_single_event ≡ true) ⊎ IsLast t)
      × (t' ≡ record t { state = ready; wait_single_event = false; event_queue = t'.event_queue })
      × ((f : ℕ) → Fits cfg f → bit_of t' f ≡ false)

  -- The task waits on for the rest of its events.
  abbrev pub WaitsOn : Tcb → Tcb → Type 0
  WaitsOn t t' =
      InWait t
      × (bit_of t e ≡ true)
      × (t.wait_single_event ≡ false)
      × ¬ IsLast t
      × (t' ≡ record t { event_queue = t'.event_queue })
      × ((f : ℕ) → bit_of t' f ≡ (not (e == f) && bit_of t f))

  abbrev pub Signals : Tcb → Tcb → Type 0
  Signals t t' = Passed t t' ⊎ Woken t t' ⊎ WaitsOn t t'

  module _ (t : Tcb) (b : HasBytes t) where
    state_lem : is_waiting_event t.state ≡ true → InWait t
    state_lem h = elim (Bool-cases (is t.state waiting_event)) [
      | inl plain ↦ inl (is→eq _ _ plain)
      | inr other ↦ inr (is→eq _ _ (ground (arith, h, other)))
    ]

    last_lem : no_byte_set (event_queue_size cfg) (drop_event e t).event_queue ≡ true → IsLast t
    last_lem h f hf ne =
        let none = (no_byte_set_iff cfg (drop_event e t) (drop_event-HasBytes t e b)).0 h f hf in
        ground (arith, awaits-drop_event t e f b, none, ne)

    more_lem : no_byte_set (event_queue_size cfg) (drop_event e t).event_queue ≡ false → ¬ IsLast t
    more_lem h last =
        let all : (f : ℕ) → Fits cfg f → awaits (drop_event e t) f ≡ false =
          λ f hf. ground (arith, awaits-drop_event t e f b, last f hf) in
        false≢true
          (sym h ∙ (no_byte_set_iff cfg (drop_event e t) (drop_event-HasBytes t e b)).1 all)

    in_wait : InWait t → is_waiting_event t.state ≡ true
    in_wait (inl plain) = rw plain refl
    in_wait (inr timed) = rw timed refl

    taken_lem : InWait t → awaits t e ≡ true → Signals t (signaled cfg e t)
    taken_lem w a =
        let moves : (awaits t e && is_waiting_event t.state) ≡ true =
          ground (arith, a, in_wait w) in
        let d = drop_event e t in
        elim (Bool-cases (no_byte_set (event_queue_size cfg) d.event_queue)) [
          | inl none ↦
              rw (signaled_last cfg e t moves (ground (arith, none)))
                (inr (inl (w, a, inr (last_lem none), refl, awaits-clear_wait_queue cfg d)))
          | inr some ↦ elim (Bool-cases t.wait_single_event) [
            | inl single ↦
                rw (signaled_last cfg e t moves (ground (arith, single)))
                  (inr (inl (w, a, inl single, refl, awaits-clear_wait_queue cfg d)))
            | inr all ↦
                rw (signaled_more cfg e t moves (ground (arith, all, some)))
                  (inr (inr (w, a, all, more_lem some, refl, λ f. awaits-drop_event t e f b)))
          ]
        ]

    signaled-Signals : Signals t (signaled cfg e t)
    signaled-Signals = elim (Bool-cases (awaits t e)) [
      | inr not_awaited ↦ inl (
        λ (w, a). false≢true (sym not_awaited ∙ a),
        signaled_unmoved cfg e t (ground (arith, not_awaited)),
      )
      | inl awaited ↦ elim (Bool-cases (is_waiting_event t.state)) [
        | inr idle ↦ inl (
          λ (w, a). false≢true (sym idle ∙ in_wait w),
          signaled_unmoved cfg e t (ground (arith, awaited, idle)),
        )
        | inl waits ↦ taken_lem (state_lem waits) awaited
      ]
    ]

  -- Where the event has its bit in the wait queues, these consist of bytes, and the table has room for
  -- its tasks, `os_task_signal_event` returns. A task of the table that does not wait for the event is
  -- as it was. One that waits, with a timeout or without, and for any one event or with this as the
  -- last that it awaits, is ready and awaits nothing; else it waits on, for its other events. No other
  -- field of a control block has changed, nor what lies behind the tasks of the table.
  pub os_task_signal_event-Signals :
      (ts : Tasks)
      → Fits cfg e
      → ts.n_tasks ≤ cfg.max_tasks
      → ((j : ℕ) → j < ts.n_tasks → HasBytes (ts.task_list j))
      → Returns (os_task_signal_event cfg e ts) (λ ts'.
        (ts'.n_tasks ≡ ts.n_tasks)
        × (ts'.last_running_task ≡ ts.last_running_task)
        × ((j : ℕ) → j < ts.n_tasks → Signals (ts.task_list j) (ts'.task_list j))
        × ((j : ℕ) → ts.n_tasks ≤ j → ts'.task_list j ≡ ts.task_list j))
  os_task_signal_event-Signals ts fits le bytes =
      Returns_mono (os_task_signal_event cfg e ts) (EachTask ts (signaled cfg e)) _
        (os_task_signal_event_lem cfg e fits ts le)
        (λ ts' h. (
          h.0,
          h.1,
          λ j hj.
              let same : ts'.task_list j ≡ signaled cfg e (ts.task_list j) =
                ground (arith, h.2 j) in
              subst (Signals (ts.task_list j)) (sym same)
                (signaled-Signals (ts.task_list j) (bytes j hj)),
          λ j hj. ground (arith, h.2 j),
        ))
