-- ===== src/System/Signals/Multiple.antt =====
-- os_event/src/os_event.c: `os_wait_multiple`, and the events that are signaled afterwards.
use coco_os.Base.{
  ℕ, ◌+◌, ◌%◌, ◌<◌, ◌≤◌, ◌≡◌, ◌⊎◌, refl, Bool, false, not, arith, List, [], ◌∷◌, ◌++◌, inl, inr,
}
use coco_os.Base.Lists.{All, length}
use coco_os.Base.Tests.{leb, ◌==◌, Bool-cases}
use coco_os.Base.Outcome.{Result, ok, halt, assertion, ◌>>=◌, Returns, Returns_split, Returns-elim}
use native.Mathlib.Decide.{dec_lt}
use coco_os.Config.{Config, total_events, no_event}
use coco_os.Event.{no_events}
use coco_os.Task.{Tasks, is, ready}
use coco_os.Task.Events.{
  awaits, clear_wait_queue, os_task_clear_wait_queue, os_task_wait_event, os_task_signal_event,
}
use coco_os.Task.Events.Waiting.{HasBytes, awaits-clear_wait_queue, clear_wait_queue-HasBytes}
use coco_os.Task.Events.WaitAll.{Fits, signal_events}
use coco_os.Task.Events.Park.{modify-Holds}
use coco_os.Task.Events.WaitThenSignal.{wait_events, satisfied, wait_events-signal_events}
use coco_os.System.{Os, on_tasks}
use coco_os.System.Invariant.{few_events, IsSound}
use coco_os.System.Signals.{scan_args, wait_args, wait_multiple, os_wait_multiple, os_signal_event}
use coco_os.System.Signals.Safety.{InRange}

-- A call on the tasks, and then another step.
on_tasks_bind :
    (r : Result Tasks) (os : Os) (f : Tasks → Result Tasks) (k : Os → Result Os)
    → ((ts : Tasks) → k (record os { tasks = ts }) ≡ on_tasks f (record os { tasks = ts }))
    → ((r >>= λ ts. ok (record os { tasks = ts })) >>= k)
      ≡ ((r >>= f) >>= λ ts. ok (record os { tasks = ts }))
on_tasks_bind (ok ts) os f k same = same ts
on_tasks_bind (halt e) os f k same = refl

module _ (cfg : Config) (sound : IsSound cfg) where
  -- The scan finds NO_EVENT where it comes within N_TOTAL_EVENTS + 1 arguments, and stops at an event
  -- where it does not.
  scan_ends :
      (es : List ℕ) (count : ℕ)
      → All (InRange cfg sound) es
      → (count + length es ≤ total_events cfg
          → scan_args cfg (es ++ no_event ∷ []) count ≡ ok no_event)
        × (count ≤ total_events cfg
            → total_events cfg < count + length es
            → Returns (scan_args cfg (es ++ no_event ∷ []) count) (λ e. (e == no_event) ≡ false))
  unfolding scan_args
  scan_ends [] count h = (λ le. refl, λ le over. absurd (omega arith))
  scan_ends (e ∷ es) count h =
      let few = few_events cfg sound in
      let rest = scan_ends es (count + 1) h.1 in
      let other : (e == no_event) ≡ false = ground (arith, h.0) in
      elim (Bool-cases (leb (count + 1) (total_events cfg))) [
        | inl more ↦
            rw (other, more)
              (λ le. rest.0 (omega arith), λ le over. rest.1 (ground (arith, more)) (omega arith))
        | inr last ↦ rw (other, last) (λ le. absurd (ground (arith, last)), λ le over. other)
      ]

  -- The calls of the second loop, one for each event before NO_EVENT.
  wait_args_lem :
      (all : Bool) (e : ℕ) (es : List ℕ) (os : Os)
      → e < total_events cfg
      → All (InRange cfg sound) es
      → wait_args cfg all e (es ++ no_event ∷ []) os
        ≡ on_tasks (wait_events cfg os.running_tid 0 (not all) (e ∷ es)) os
  unfolding wait_args wait_events
  wait_args_lem all e [] os h hs =
      let few = few_events cfg sound in
      let byte : e % 256 ≡ e = omega arith in
      rw byte (
        on_tasks_bind (os_task_wait_event cfg os.running_tid e (not all) 0 os.tasks) os ok
          (λ os'. ok os') (λ ts. refl))
  wait_args_lem all e (f ∷ es) os h hs =
      let few = few_events cfg sound in
      let byte : e % 256 ≡ e = omega arith in
      let other : (f == no_event) ≡ false = ground (arith, hs.0) in
      rw (byte, other)
        (on_tasks_bind (os_task_wait_event cfg os.running_tid e (not all) 0 os.tasks) os
          (wait_events cfg os.running_tid 0 (not all) (f ∷ es))
          (wait_args cfg all f (es ++ no_event ∷ []))
          (λ ts. wait_args_lem all f es (record os { tasks = ts }) hs.0 hs.1))

  -- The events are signaled in turn.
  pub os_signal_events : List ℕ → Os → Result Os
  os_signal_events [] os = ok os
  os_signal_events (s ∷ ss) os = os_signal_event cfg s os >>= os_signal_events ss

  os_signal_events-tasks :
      (ss : List ℕ) (os : Os) (P : Tasks → Type 0)
      → no_events cfg ≡ false
      → Returns (signal_events cfg ss os.tasks) P
      → Returns (os_signal_events ss os) (λ os'. P os'.tasks)
  unfolding os_signal_events signal_events os_signal_event
  os_signal_events-tasks [] os P there h = h
  os_signal_events-tasks (s ∷ ss) os P there h =
      let (ts, e, k) =
        Returns-elim (os_task_signal_event cfg s os.tasks)
          (λ ts. Returns (signal_events cfg ss ts) P)
          (Returns_split (os_task_signal_event cfg s os.tasks) (signal_events cfg ss) P h) in
      rw (there, e)
        (os_signal_events-tasks ss
          (record os { tasks = ts; events = record (os.events) { last_signaled_event = s } }) P
          there k)

  module _ (all : Bool) (e : ℕ) (es ss : List ℕ) (h : All (InRange cfg sound) (e ∷ es))
      (hs : All (InRange cfg sound) ss) where
    InRange-Fits : (es : List ℕ) → All (InRange cfg sound) es → All (Fits cfg) es
    InRange-Fits [] h = tt
    InRange-Fits (e ∷ es) h = (sound.roomy e h.0, InRange-Fits es h.1)

    some_events : no_events cfg ≡ false
    some_events = ground (arith, h.0)

    -- What becomes of the running task.
    abbrev Answered : Os → Os → Type 0
    Answered os os' =
        is (os'.tasks.task_list os.running_tid).state ready ≡ satisfied (not all) (e ∷ es) ss

    args-signals :
        (os : Os)
        → os.running_tid < os.tasks.n_tasks
        → os.tasks.n_tasks ≤ cfg.max_tasks
        → HasBytes (os.tasks.task_list os.running_tid)
        → ((f : ℕ) → Fits cfg f → awaits (os.tasks.task_list os.running_tid) f ≡ false)
        → Returns
            (wait_args cfg all e (es ++ no_event ∷ []) os >>= os_signal_events ss)
            (Answered os)
    args-signals os runs le bytes none =
        let tid = os.running_tid in
        let waits = wait_events cfg tid 0 (not all) (e ∷ es) os.tasks in
        let P : Tasks → Type 0 =
          λ ts. is (ts.task_list tid).state ready ≡ satisfied (not all) (e ∷ es) ss in
        let (ts, q, k) =
          Returns-elim waits (λ ts. Returns (signal_events cfg ss ts) P)
            (Returns_split waits (signal_events cfg ss) P (
              wait_events-signal_events cfg tid 0 (not all) e es ss os.tasks runs le
                (InRange-Fits (e ∷ es) h) (InRange-Fits ss hs) bytes none)) in
        rw (wait_args_lem all e es os h.0 h.1, q)
          (os_signal_events-tasks ss (record os { tasks = ts }) P some_events k)

    module _ (os : Os) (runs : os.running_tid < os.tasks.n_tasks)
        (le : os.tasks.n_tasks ≤ cfg.max_tasks)
        (bytes : HasBytes (os.tasks.task_list os.running_tid)) where
      cleared-signals :
          Returns
            (on_tasks (os_task_clear_wait_queue cfg os.running_tid) os
              >>= wait_args cfg all e (es ++ no_event ∷ [])
              >>= os_signal_events ss)
            (Answered os)
      unfolding os_task_clear_wait_queue
      cleared-signals =
          let tid = os.running_tid in
          let t = os.tasks.task_list tid in
          let (ts, q, (n, there)) = Returns-elim (os_task_clear_wait_queue cfg tid os.tasks) _ (
            modify-Holds cfg tid 0 false (clear_wait_queue cfg) os.tasks.n_tasks t os.tasks
              (omega arith) (refl, refl)) in
          rw q (
            args-signals (record os { tasks = ts }) (omega (arith, n)) (omega (arith, n))
              (rw there (clear_wait_queue-HasBytes cfg t bytes))
              (λ f hf. rw there (awaits-clear_wait_queue cfg t f hf)))

      -- Where the static assertions hold and each configured event has its bit in the wait queues
      -- (so with up to 16 events, but not with 17): the running task is one of the table, which has
      -- room for its tasks, and its wait queue consists of bytes. It calls `os_wait_multiple` with
      -- a list of configured events that ends with NO_EVENT, and then configured events are
      -- signaled. If the list has at most N_TOTAL_EVENTS + 1 events, the calls return, and the task
      -- is ready afterwards just when all of its events, or one of them where it waits for any, are
      -- among those that were signaled; whatever it awaited before is forgotten. If the list is
      -- longer, an assertion fails.
      pub os_wait_multiple-os_signal_events :
          ((length es ≤ total_events cfg)
            × Returns
                (os_wait_multiple cfg all (e ∷ es ++ no_event ∷ []) os >>= os_signal_events ss)
                (Answered os))
          ⊎ ((total_events cfg < length es)
              × (os_wait_multiple cfg all (e ∷ es ++ no_event ∷ []) os ≡ halt assertion))
      unfolding os_wait_multiple wait_multiple
      os_wait_multiple-os_signal_events = elim (dec_lt (total_events cfg) (length es)) [
        | no fit ↦
            inl
              (omega arith, rw (some_events, (scan_ends es 0 h.1).0 (omega arith)) cleared-signals)
        | yes over ↦ inr (
          over,
          let (last, q, other) =
                Returns-elim (scan_args cfg (es ++ no_event ∷ []) 0) _
                  ((scan_ends es 0 h.1).1 (omega arith) (omega arith)) in
              rw (some_events, q, other) refl,
        )
      ]
