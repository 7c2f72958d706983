-- ===== src/Task/Events/WaitThenSignal.antt =====
-- os_task/src/os_task.c: a task starts to wait for several events, and then events are signaled.
use coco_os.Base.{
  ℕ, ◌<◌, ◌≤◌, ◌≡◌, refl, Bool, true, false, ◌||◌, ◌&&◌, arith, List, [], ◌∷◌, inl, inr, ap, sym,
  ◌∙◌,
}
use coco_os.Base.Lists.{All}
use coco_os.Base.{◌%◌}
use coco_os.Base.Bits.{has_bit}
use coco_os.Task.{eq→is}
use coco_os.Base.{◌/◌}
use coco_os.Base.Tests.{if◌then◌else◌, ◌==◌, Bool-cases}
use coco_os.Base.Outcome.{Result, ok, ◌>>=◌, Returns, Returns_bind, Returns_mono}
use coco_os.Config.{Config}
use coco_os.Task.{Tasks, Tcb, is, ready}
use coco_os.Task.Events.{awaits, add_event, is_waiting_event, os_task_wait_event}
use coco_os.Task.Events.Waiting.{HasBytes, awaits-add_event, add_event-HasBytes}
use coco_os.Task.Events.WaitAll.{
  mem, Fits, WaitsAll, not_empty, signal_events, signal_events-ready, signal_events-blocked,
}
use coco_os.Task.Events.WaitAny.{some_mem, signal_events-single}
use coco_os.Task.Events.Park.{waiting, wait_one, waiting_lem}

-- Are all of the first events among the others?
abbrev pub all_mem : List ℕ → List ℕ → Bool
all_mem [] ss = true
all_mem (e ∷ es) ss = mem e ss && all_mem es ss

all_mem-mem : (es ss : List ℕ) (f : ℕ) → all_mem es ss ≡ true → mem f es ≡ true → mem f ss ≡ true
all_mem-mem [] ss f h m = ground arith
all_mem-mem (e ∷ es) ss f h m = ground (arith, all_mem-mem es ss f)

missing :
    (es ss : List ℕ) → all_mem es ss ≡ false → (f : ℕ) × (mem f es ≡ true) × (mem f ss ≡ false)
missing [] ss h = ground arith
missing (e ∷ es) ss h = elim (Bool-cases (mem e ss)) [
  | inr out ↦ (e, ground arith, out)
  | inl here ↦ let (f, m, n) = missing es ss (ground arith) in (f, ground arith, n)
]

-- Has a task been signaled what it waits for, be it any one of the events or all of them?
abbrev pub satisfied : Bool → List ℕ → List ℕ → Bool
satisfied one es ss = if one then some_mem ss es else all_mem es ss

module _ (cfg : Config) (tid timeout : ℕ) (one : Bool) where
  -- The task waits for all of the events, each named by a call.
  unfoldable pub wait_events : List ℕ → Tasks → Result Tasks
  wait_events [] ts = ok ts
  wait_events (e ∷ es) ts = os_task_wait_event cfg tid e one timeout ts >>= wait_events es

  waiting-Waits :
      (e : ℕ) (t t' : Tcb)
      → HasBytes t
      → t' ≡ waiting cfg tid timeout one e t
      → HasBytes t' × ((f : ℕ) → awaits t' f ≡ (e == f || awaits t f))
  waiting-Waits e t t' h q =
      let same : t'.event_queue ≡ (add_event e t).event_queue =
        ap (λ u. u.event_queue) q ∙ (waiting_lem cfg tid timeout one e t).0 in
      (
        λ j. rw (ap (λ q. q j) same) (add_event-HasBytes t e h j),
        λ f. ap (λ q. has_bit (q (f / 8)) (f % 8)) same ∙ awaits-add_event t e f h,
      )

  abbrev IsWaiting : Tcb → Type 0
  IsWaiting t = (is_waiting_event t.state ≡ true) × (t.wait_single_event ≡ one)

  abbrev Waits : List ℕ → Tasks → Tasks → Type 0
  Waits es ts ts' =
      (ts'.n_tasks ≡ ts.n_tasks)
      × HasBytes (ts'.task_list tid)
      × IsWaiting (ts'.task_list tid)
      × ((f : ℕ) → awaits (ts'.task_list tid) f ≡ (mem f es || awaits (ts.task_list tid) f))

  -- A task that calls for no further event waits.
  abbrev Started : List ℕ → Tcb → Type 0
  Started [] t = IsWaiting t
  Started (e ∷ es) t = Unit {0}

  started : (es : List ℕ) (t : Tcb) → IsWaiting t → Started es t
  started [] t w = w
  started (e ∷ es) t w = tt

  wait_events-Waits :
      (es : List ℕ) (ts : Tasks)
      → tid < ts.n_tasks
      → ts.n_tasks ≤ cfg.max_tasks
      → All (Fits cfg) es
      → HasBytes (ts.task_list tid)
      → Started es (ts.task_list tid)
      → Returns (wait_events es ts) (Waits es ts)
  unfolding wait_events
  wait_events-Waits [] ts h le fits b w = (refl, b, w, λ f. refl)
  wait_events-Waits (e ∷ es) ts h le fits b w =
      Returns_bind (os_task_wait_event cfg tid e one timeout ts) (wait_events es) _ _
        (wait_one cfg tid timeout one e ts h le fits.0)
        (λ s q.
          let r = waiting-Waits e (ts.task_list tid) (s.task_list tid) b q.1 in
          let u = waiting_lem cfg tid timeout one e (ts.task_list tid) in
          let w : IsWaiting (s.task_list tid) = (
            ap (λ t. is_waiting_event t.state) q.1 ∙ u.1,
            ap (λ t. t.wait_single_event) q.1 ∙ u.2,
          ) in
          Returns_mono (wait_events es s) _ _
            (wait_events-Waits es s (omega (arith, q.0)) (omega (arith, q.0)) fits.1 r.0
              (started es _ w))
            (λ ts' v. (v.0 ∙ q.0, v.1, v.2, λ f. ground (arith, v.3 f, r.1 f))))

  Fits-All : (es : List ℕ) (f : ℕ) → All (Fits cfg) es → mem f es ≡ true → Fits cfg f
  Fits-All [] f h m = ground arith
  Fits-All (e ∷ es) f h m = ground (arith, Fits-All es f)

  module _ (es ss : List ℕ) (s : Tasks) (hs : tid < s.n_tasks) (les : s.n_tasks ≤ cfg.max_tasks)
      (fits : All (Fits cfg) es) (fit : All (Fits cfg) ss)
      (awaited : (f : ℕ) → Fits cfg f → awaits (s.task_list tid) f ≡ mem f es) where
    abbrev AllAfter : Tasks → Type 0
    AllAfter ts' = is (ts'.task_list tid).state ready ≡ all_mem es ss

    signaled_all : WaitsAll cfg (s.task_list tid) → Returns (signal_events cfg ss s) AllAfter
    signaled_all w = elim (Bool-cases (all_mem es ss)) [
      | inl t ↦
          Returns_mono (signal_events cfg ss s) _ _
            (signal_events-ready cfg ss s tid les fit hs w
              (λ f hf a. all_mem-mem es ss f t (sym (awaited f hf) ∙ a)))
            (λ ts' r. eq→is _ _ r ∙ sym t)
      | inr n ↦
          let (f, m, out) = missing es ss n in
          let hf = Fits-All es f fits m in
          Returns_mono (signal_events cfg ss s) _ _
            (signal_events-blocked cfg ss s tid les fit hs w f hf (awaited f hf ∙ m) out)
            (λ ts' r. ground (arith, r, w.waiting, n))
    ]

  signaled_after :
      (e : ℕ) (es ss : List ℕ) (ts s : Tasks)
      → tid < ts.n_tasks
      → ts.n_tasks ≤ cfg.max_tasks
      → All (Fits cfg) (e ∷ es)
      → All (Fits cfg) ss
      → ((f : ℕ) → Fits cfg f → awaits (ts.task_list tid) f ≡ false)
      → Waits (e ∷ es) ts s
      → Returns
          (signal_events cfg ss s)
          (λ ts'. is (ts'.task_list tid).state ready ≡ satisfied one (e ∷ es) ss)
  signaled_after e es ss ts s h le fits fit none v =
      let first : awaits (s.task_list tid) e ≡ true = ground (arith, v.3 e) in
      let awaited : (f : ℕ) → Fits cfg f → awaits (s.task_list tid) f ≡ mem f (e ∷ es) =
        λ f hf. ground (arith, v.3 f, none f hf) in
      elim (Bool-cases one) [
        | inl any ↦ rw any (
            signal_events-single cfg (e ∷ es) ss s tid (omega (arith, v.0)) fit (omega (arith, v.0))
              (record { waiting = v.2.0; single = v.2.1 ∙ any; awaited = awaited }))
        | inr all ↦ rw all (
            signaled_all (e ∷ es) ss s (omega (arith, v.0)) (omega (arith, v.0)) fits fit awaited
              (record {
                waiting = v.2.0;
                all = v.2.1 ∙ all;
                bytes = v.1;
                some_left = not_empty cfg (s.task_list tid) e v.1 fits.0 first;
              }))
      ]

  -- A task of the table, which has room for its tasks, awaits no event that has a bit in the wait
  -- queues, and its wait queue consists of bytes. It calls `os_task_wait_event` for each of some
  -- events, one at least, with or without a timeout, to wait for all of them or for any one; then
  -- events are signaled to the whole table. Each event that it calls for and each that is signaled
  -- has its bit in the wait queues. The calls return, and the task is ready afterwards just when
  -- each of the events that it called for, or one of them, is among those that were signaled.
  pub wait_events-signal_events :
      (e : ℕ) (es ss : List ℕ) (ts : Tasks)
      → tid < ts.n_tasks
      → ts.n_tasks ≤ cfg.max_tasks
      → All (Fits cfg) (e ∷ es)
      → All (Fits cfg) ss
      → HasBytes (ts.task_list tid)
      → ((f : ℕ) → Fits cfg f → awaits (ts.task_list tid) f ≡ false)
      → Returns
          (wait_events (e ∷ es) ts >>= signal_events cfg ss)
          (λ ts'. is (ts'.task_list tid).state ready ≡ satisfied one (e ∷ es) ss)
  wait_events-signal_events e es ss ts h le fits fit b none =
      Returns_bind (wait_events (e ∷ es) ts) (signal_events cfg ss) _ _
        (wait_events-Waits (e ∷ es) ts h le fits b tt)
        (λ s v. signaled_after e es ss ts s h le fits fit none v)
