-- ===== src/Task/Events/WaitAll.antt =====
-- Tasks of os_task/src/os_task.c that wait for several events, under a sequence of signals.
use mathlib.Core.Bool.{false≢true}
use coco_os.Base.{
  ap, sym, ◌∙◌, inl, inr, ℕ, ◌/◌, ◌<◌, ◌≤◌, ◌≡◌, refl, Bool, true, false, ◌||◌, arith, List, [],
  ◌∷◌,
}
use coco_os.Base.Lists.{All}
use coco_os.Base.Tests.{◌==◌, Bool-cases}
use coco_os.Base.Outcome.{Result, ok, ◌>>=◌, Returns, Returns-elim, Returns_mono}
use coco_os.Config.{Config, event_queue_size}
use coco_os.Task.{Tasks, Tcb, ready}
use coco_os.Task.Loop.{EachTask}
use coco_os.Task.Events.{awaits, is_waiting_event, drop_event, no_byte_set, os_task_signal_event}
use coco_os.Task.Events.Signal.{
  signaled, signaled_unmoved, signaled_last, signaled_more, os_task_signal_event_lem,
}
use coco_os.Task.Events.Waiting.{HasBytes, awaits-drop_event, drop_event-HasBytes, no_byte_set_iff}

abbrev pub mem : ℕ → List ℕ → Bool
mem e [] = false
mem e (f ∷ fs) = f == e || mem e fs

module _ (cfg : Config) where
  abbrev pub Fits : ℕ → Type 0
  Fits e = e / 8 < event_queue_size cfg

  -- The events are signaled in turn, each to the whole table.
  unfoldable pub signal_events : List ℕ → Tasks → Result Tasks
  signal_events [] ts = ok ts
  signal_events (e ∷ es) ts = os_task_signal_event cfg e ts >>= signal_events es

  unfoldable pub signal_each : List ℕ → Tcb → Tcb
  signal_each [] t = t
  signal_each (e ∷ es) t = signal_each es (signaled cfg e t)

  pub ready_stays : (es : List ℕ) (t : Tcb) → t.state ≡ ready → signal_each es t ≡ t
  unfolding signal_each
  ready_stays [] t h = refl
  ready_stays (e ∷ es) t h = rw (signaled_unmoved cfg e t (ground arith)) (ready_stays es t h)

  pub not_empty :
      (t : Tcb) (f : ℕ)
      → HasBytes t
      → Fits f
      → awaits t f ≡ true
      → no_byte_set (event_queue_size cfg) t.event_queue ≡ false
  not_empty t f h hf a = elim (Bool-cases (no_byte_set (event_queue_size cfg) t.event_queue)) [
    | inl none ↦ absurd (false≢true (sym ((no_byte_set_iff cfg t h).0 none f hf) ∙ a))
    | inr some ↦ some
  ]

  -- A task that waits for all of the events that it still awaits, and awaits one at least.
  pub record WaitsAll (t : Tcb) : Type 0 where
    pub waiting : is_waiting_event t.state ≡ true
    pub all : t.wait_single_event ≡ false
    pub bytes : HasBytes t
    pub some_left : no_byte_set (event_queue_size cfg) t.event_queue ≡ false

  abbrev pub Covers : List ℕ → Tcb → Type 0
  Covers es t = (f : ℕ) → Fits f → awaits t f ≡ true → mem f es ≡ true

  Covers-nil : (t : Tcb) → WaitsAll t → ¬ Covers [] t
  Covers-nil t w c =
      false≢true
        (sym w.some_left ∙ (no_byte_set_iff cfg t w.bytes).1 (λ f hf. ground (arith, c f hf)))

  Covers-drop_event :
      (e : ℕ) (es : List ℕ) (t : Tcb) → HasBytes t → Covers (e ∷ es) t → Covers es (drop_event e t)
  Covers-drop_event e es t h c f hf a = ground (arith, c f hf, awaits-drop_event t e f h)

  Covers-skip :
      (e : ℕ) (es : List ℕ) (t : Tcb) → awaits t e ≡ false → Covers (e ∷ es) t → Covers es t
  Covers-skip e es t h c f hf a = ground (arith, c f hf)

  drop_event-WaitsAll :
      (e : ℕ) (t : Tcb)
      → WaitsAll t
      → no_byte_set (event_queue_size cfg) (drop_event e t).event_queue ≡ false
      → WaitsAll (drop_event e t)
  drop_event-WaitsAll e t w h = record {
    waiting = w.waiting;
    all = w.all;
    bytes = drop_event-HasBytes t e w.bytes;
    some_left = h;
  }

  each_covered :
      (es : List ℕ) (t : Tcb) → WaitsAll t → Covers es t → (signal_each es t).state ≡ ready
  unfolding signal_each
  each_covered [] t w c = absurd (Covers-nil t w c)
  each_covered (e ∷ es) t w c = elim (Bool-cases (awaits t e)) [
    | inr not_awaited ↦
        rw (signaled_unmoved cfg e t (ground arith), signal_each)
          (each_covered es t w (Covers-skip e es t not_awaited c))
    | inl awaited ↦
        elim (Bool-cases (no_byte_set (event_queue_size cfg) (drop_event e t).event_queue)) [
          | inl last ↦
              rw (signaled_last cfg e t (ground arith) (ground arith), signal_each)
                (ap (λ (t : Tcb). t.state) (ready_stays es _ refl))
          | inr more ↦
              rw (signaled_more cfg e t (ground arith) (ground arith), signal_each)
                (each_covered es (drop_event e t) (drop_event-WaitsAll e t w more)
                  (Covers-drop_event e es t w.bytes c))
        ]
  ]

  -- An awaited event that is not signaled keeps the task waiting.
  each_blocked :
      (es : List ℕ) (t : Tcb) (f : ℕ)
      → WaitsAll t
      → Fits f
      → awaits t f ≡ true
      → mem f es ≡ false
      → (signal_each es t).state ≡ t.state
  unfolding signal_each
  each_blocked [] t f w hf a m = refl
  each_blocked (e ∷ es) t f w hf a m = elim (Bool-cases (awaits t e)) [
    | inr not_awaited ↦
        rw (signaled_unmoved cfg e t (ground arith), signal_each)
          (each_blocked es t f w hf a (ground arith))
    | inl awaited ↦
        let kept : awaits (drop_event e t) f ≡ true =
          ground (arith, awaits-drop_event t e f w.bytes) in
        let more = not_empty (drop_event e t) f (drop_event-HasBytes t e w.bytes) hf kept in
        rw (signaled_more cfg e t (ground arith) (ground arith), signal_each)
          (each_blocked es (drop_event e t) f (drop_event-WaitsAll e t w more) hf kept
            (ground arith))
  ]

  pub signal_events_lem :
      (es : List ℕ) (ts : Tasks)
      → ts.n_tasks ≤ cfg.max_tasks
      → All Fits es
      → Returns (signal_events es ts) (EachTask ts (signal_each es))
  unfolding signal_events signal_each
  signal_events_lem [] ts le fits = (refl, refl, λ j. ground arith)
  signal_events_lem (e ∷ es) ts le fits =
      let (s, e₁, h₁) =
        Returns-elim (os_task_signal_event cfg e ts) (EachTask ts (signaled cfg e))
          (os_task_signal_event_lem cfg e fits.0 ts le) in
      rw e₁ (
        Returns_mono (signal_events es s) (EachTask s (signal_each es)) _
          (signal_events_lem es s (omega (arith, h₁.0)) fits.1)
          (λ s' h. (
            omega (arith, h₁.0, h.0),
            omega (arith, h₁.1, h.1),
            λ j. ground (arith, h₁.0, h₁.2 j, h.2 j),
          )))

  module _ (es : List ℕ) (ts : Tasks) (j : ℕ) (le : ts.n_tasks ≤ cfg.max_tasks) (fits : All Fits es)
      (hj : j < ts.n_tasks) (w : WaitsAll (ts.task_list j)) where
    -- A task of the table, which has room for its tasks, waits for all of its events, one at least,
    -- and its wait queue consists of bytes. It is ready once each event that it awaits was
    -- signaled, in whatever order and among whatever others, if each event that is signaled has its
    -- bit in the wait queues; awaited events are those that have one.
    pub signal_events-ready :
        Covers es (ts.task_list j)
        → Returns (signal_events es ts) (λ ts'. (ts'.task_list j).state ≡ ready)
    signal_events-ready c =
        Returns_mono (signal_events es ts) (EachTask ts (signal_each es)) _
          (signal_events_lem es ts le fits)
          (λ ts' h. ground (arith, h.2 j, each_covered es (ts.task_list j) w c))

    -- A task of the table, which has room for its tasks, waits for all of its events, one at least,
    -- and its wait queue consists of bytes. Where each event that is signaled has its bit in the
    -- wait queues, it stays in its waiting state as long as one of the events that it awaits, and
    -- that has its bit there, was not signaled.
    pub signal_events-blocked :
        (f : ℕ)
        → Fits f
        → awaits (ts.task_list j) f ≡ true
        → mem f es ≡ false
        → Returns (signal_events es ts) (λ ts'. (ts'.task_list j).state ≡ (ts.task_list j).state)
    signal_events-blocked f hf a m =
        Returns_mono (signal_events es ts) (EachTask ts (signal_each es)) _
          (signal_events_lem es ts le fits)
          (λ ts' h. ground (arith, h.2 j, each_blocked es (ts.task_list j) f w hf a m))
