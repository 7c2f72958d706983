-- ===== src/Task/Events/WaitAny.antt =====
-- Tasks of os_task/src/os_task.c that wait for any of several events, under a sequence of signals.
use coco_os.Base.{
  ap, inl, inr, ℕ, ◌<◌, ◌≤◌, ◌≡◌, refl, Bool, true, false, ◌||◌, arith, List, [], ◌∷◌, ◌∙◌,
}
use coco_os.Base.Lists.{All}
use coco_os.Base.Tests.{Bool-cases}
use coco_os.Base.Outcome.{Returns, Returns_mono}
use coco_os.Config.{Config}
use coco_os.Task.{Tasks, Tcb, is, ready}
use coco_os.Task.Loop.{EachTask}
use coco_os.Task.Events.{awaits, is_waiting_event}
use coco_os.Task.Events.Signal.{signaled_unmoved, signaled_last}
use coco_os.Task.Events.WaitAll.{
  mem, Fits, signal_events, signal_each, ready_stays, signal_events_lem,
}

-- Is one of the first events among the others?
abbrev pub some_mem : List ℕ → List ℕ → Bool
some_mem [] es = false
some_mem (s ∷ ss) es = mem s es || some_mem ss es

module _ (cfg : Config) (es : List ℕ) where
  -- The task waits for any one of the events `es`.
  pub record WaitsAny (t : Tcb) : Type 0 where
    pub waiting : is_waiting_event t.state ≡ true
    pub single : t.wait_single_event ≡ true
    pub awaited : (f : ℕ) → Fits cfg f → awaits t f ≡ mem f es

  each_taken :
      (ss : List ℕ) (t : Tcb)
      → All (Fits cfg) ss
      → WaitsAny t
      → is (signal_each cfg ss t).state ready ≡ some_mem ss es
  unfolding signal_each
  each_taken [] t fits w = ground (arith, w.waiting)
  each_taken (s ∷ ss) t fits w = elim (Bool-cases (awaits t s)) [
    | inr not_awaited ↦
        rw (signaled_unmoved cfg s t (ground arith), signal_each)
          (ground (arith, each_taken ss t fits.1 w, w.awaited s fits.0))
    | inl awaited ↦
        let h = w.waiting in
        let k = w.single in
        rw (signaled_last cfg s t (ground arith) (ground arith), signal_each)
          (ap (λ (t : Tcb). is t.state ready) (ready_stays cfg ss _ refl)
            ∙ ground (arith, w.awaited s fits.0, awaited))
  ]

  -- It is ready after a sequence of signals just when one of the events was signaled.
  pub signal_events-single :
      (ss : List ℕ) (ts : Tasks) (j : ℕ)
      → ts.n_tasks ≤ cfg.max_tasks
      → All (Fits cfg) ss
      → j < ts.n_tasks
      → WaitsAny (ts.task_list j)
      → Returns (signal_events cfg ss ts) (λ ts'. is (ts'.task_list j).state ready ≡ some_mem ss es)
  signal_events-single ss ts j le fits hj w =
      Returns_mono (signal_events cfg ss ts) (EachTask ts (signal_each cfg ss)) _
        (signal_events_lem cfg ss ts le fits)
        (λ ts' h. ground (arith, h.2 j, each_taken ss (ts.task_list j) fits w))
