-- ===== src/Kernel/Clocks.antt =====
-- os_kernel/src/os_kernel.c: `os_sub_nTick`, and when the delay of a task ends.
pub mod Single
use coco_os.Base.Lists.{All}
use native.Mathlib.Decide.{dec_lt}
use mathlib.Core.Path.{subst}
use coco_os.Base.{refl, true, List, [], arith, not, ℕ, ◌%◌, ◌+◌, ◌-◌, ◌<◌, ◌||◌, ◌∷◌, ◌≡◌, ◌≢◌, ◌≤◌}
use coco_os.Base.Tests.{ltb, if◌then◌else◌, leb, ◌==◌}
use coco_os.Base.Outcome.{Returns_mono, Result, Returns, Returns_bind, Returns_forall, ok, ◌>>=◌}
use coco_os.Config.{Config}
use coco_os.Task.{
  Tasks, Tcb, is, modify, ready, task_at, task_ready_set, waiting_event_timeout, waiting_sem,
  waiting_time,
}
use coco_os.Task.Loop.{EachTask, FirstTasks, OneTask, extend}
use coco_os.Task.Events.{clear_wait_queue, os_task_clear_wait_queue}
use coco_os.Base.Arrays.{for_range_inv}
use coco_os.System.Tick.{task_tick, tick_queue, tick_time, u32_mod}
use coco_os.System.{Os, on_tasks}
use coco_os.Kernel.{os_sub_n_tick}

module _ (cfg : Config) where
  -- One task after `n` ticks of a clock.
  abbrev pub ticked : ℕ → ℕ → Tcb → Tcb
  ticked clock_id n t =
      if is t.state waiting_time || is t.state waiting_event_timeout
      then (if t.clock_id == clock_id
          then (if leb t.time n
              then (if is t.state waiting_event_timeout
                  then record (clear_wait_queue cfg t) { time = 0; state = ready }
                  else record t { time = 0; state = ready })
              else record t { time = t.time - n })
          else t)
      else (if is t.state waiting_sem then record t { time = (t.time + 1) % u32_mod } else t)

  tick_time_lem :
      (clock_id n i j : ℕ) (ts : Tasks)
      → i < ts.n_tasks
      → ts.n_tasks ≤ cfg.max_tasks
      → Returns (tick_time cfg clock_id n i ts) (OneTask ts (ticked clock_id n) i j)
  unfolding tick_time task_at modify task_ready_set os_task_clear_wait_queue
  tick_time_lem clock_id n i j ts h le = ground arith

  -- All but the tasks is as it was.
  abbrev pub OnlyTasks : Os → Os → Type 0
  OnlyTasks os os' =
      (os'.running ≡ os.running)
      × (os'.running_tid ≡ os.running_tid)
      × (os'.sems ≡ os.sems)
      × (os'.events ≡ os.events)
      × (os'.queues ≡ os.queues)

  abbrev pub Ticked : ℕ → ℕ → Os → Os → Type 0
  Ticked clock_id n os os' = EachTask os.tasks (ticked clock_id n) os'.tasks × OnlyTasks os os'

  FirstTicked : ℕ → ℕ → Os → ℕ → Os → Type 0
  FirstTicked clock_id n os i os' =
      FirstTasks os.tasks (ticked clock_id n) i os'.tasks × OnlyTasks os os'

  round :
      (clock_id n i : ℕ) (os s : Os)
      → clock_id ≢ 0
      → i < os.tasks.n_tasks
      → os.tasks.n_tasks ≤ cfg.max_tasks
      → FirstTicked clock_id n os i s
      → Returns
          (on_tasks (tick_time cfg clock_id n i) s >>= tick_queue cfg clock_id i)
          (FirstTicked clock_id n os (i + 1))
  unfolding FirstTicked tick_queue
  round clock_id n i os s nz h le p =
      let fits : i < s.tasks.n_tasks = omega (arith, p.0.0) in
      Returns_bind (on_tasks (tick_time cfg clock_id n i) s) (tick_queue cfg clock_id i)
        (λ s'. FirstTasks os.tasks (ticked clock_id n) (i + 1) s'.tasks × OnlyTasks os s') _
        (Returns_bind (tick_time cfg clock_id n i s.tasks) (λ ts. ok (record s { tasks = ts }))
          (λ ts. (j : ℕ) → OneTask s.tasks (ticked clock_id n) i j ts) _
          (Returns_forall _ _ λ j. tick_time_lem clock_id n i j s.tasks fits (omega (arith, p.0.0)))
          (λ ts one. (
            extend os.tasks (ticked clock_id n) (tick_time cfg clock_id n) i s.tasks ts p.0 one,
            p.1,
          )))
        (λ s' q. ground arith)

  pub os_sub_n_tick_lem :
      (clock_id n : ℕ) (os : Os)
      → clock_id ≢ 0
      → os.tasks.n_tasks ≤ cfg.max_tasks
      → Returns (os_sub_n_tick cfg clock_id n os) (Ticked clock_id n os)
  unfolding os_sub_n_tick task_tick FirstTicked
  os_sub_n_tick_lem clock_id n os nz le =
      let tested : (if not (clock_id == 0) then task_tick cfg clock_id n os else ok os)
          ≡ task_tick cfg clock_id n os =
        ground arith in
      rw tested (
        for_range_inv (FirstTicked clock_id n os)
          (λ i s. on_tasks (tick_time cfg clock_id n i) s >>= tick_queue cfg clock_id i)
          os.tasks.n_tasks (λ i s h p. round clock_id n i os s nz h le p) os.tasks.n_tasks 0 os
          (omega arith) ((refl, refl, λ j. ground arith), (refl, refl, refl, refl, refl)))

  -- The ticks that a sequence of calls gives to the clock `c`.
  abbrev pub elapsed : ℕ → List (ℕ × ℕ) → ℕ
  elapsed c [] = 0
  elapsed c ((clock_id, n) ∷ calls) = (if clock_id == c then n else 0) + elapsed c calls

  -- Calls of `os_sub_nTick` with these clocks and counts.
  pub sub_ticks : List (ℕ × ℕ) → Os → Result Os
  sub_ticks [] os = ok os
  sub_ticks ((clock_id, n) ∷ calls) os = os_sub_n_tick cfg clock_id n os >>= sub_ticks calls

  abbrev pub IsSub : ℕ × ℕ → Type 0
  IsSub c = c.0 ≢ 0

  -- How a delay stands after `e` ticks of its clock.
  abbrev pub Delayed : Tcb → ℕ → Tcb → Type 0
  Delayed t e t' =
      if ltb e t.time
      then (t'.state ≡ t.state) × (t'.time ≡ t.time - e)
      else (t'.state ≡ ready) × (t'.time ≡ 0)

  abbrev pub IsDelay : Tcb → Type 0
  IsDelay t = (is t.state waiting_time || is t.state waiting_event_timeout) ≡ true

  ready_stays :
      (calls : List (ℕ × ℕ)) (os : Os) (j : ℕ)
      → All IsSub calls
      → os.tasks.n_tasks ≤ cfg.max_tasks
      → (os.tasks.task_list j).state ≡ ready
      → (os.tasks.task_list j).time ≡ 0
      → Returns
          (sub_ticks calls os)
          (λ os'. ((os'.tasks.task_list j).state ≡ ready) × ((os'.tasks.task_list j).time ≡ 0))
  unfolding sub_ticks
  ready_stays [] os j h le r z = (r, z)
  ready_stays ((clock_id, n) ∷ calls) os j h le r z =
      Returns_bind (os_sub_n_tick cfg clock_id n os) (sub_ticks calls) _ _
        (os_sub_n_tick_lem clock_id n os h.0 le)
        (λ s q.
          ready_stays calls s j h.1 (omega (arith, q.0.0)) (ground (arith, q.0.2 j))
            (ground (arith, q.0.2 j)))

  -- One call, seen at a task that waits.
  ticked_ends :
      (clock_id n : ℕ) (t : Tcb)
      → IsDelay t
      → 0 < t.time
      → t.time ≤ (if clock_id == t.clock_id then n else 0)
      → ((ticked clock_id n t).state ≡ ready) × ((ticked clock_id n t).time ≡ 0)
  ticked_ends clock_id n t w pos h = ground arith

  ticked_waits :
      (clock_id n : ℕ) (t : Tcb)
      → IsDelay t
      → (if clock_id == t.clock_id then n else 0) < t.time
      → ((ticked clock_id n t).state ≡ t.state)
        × ((ticked clock_id n t).clock_id ≡ t.clock_id)
        × ((ticked clock_id n t).time ≡ t.time - (if clock_id == t.clock_id then n else 0))
  ticked_waits clock_id n t w h = ground arith

  Delayed-add :
      (t t' t₂ : Tcb) (k e : ℕ)
      → k < t.time
      → t'.state ≡ t.state
      → t'.time ≡ t.time - k
      → Delayed t' e t₂
      → Delayed t (k + e) t₂
  Delayed-add t t' t₂ k e h hs ht d = ground arith

  -- A task that waits for a time on a clock other than the main one, or for an event with such a
  -- timeout, counts the ticks of its clock alone, however the calls of `os_sub_nTick` to the clocks
  -- are mixed. Before its time it waits on with what is left; from then on it is ready.
  pub sub_ticks-Delayed :
      (calls : List (ℕ × ℕ)) (os : Os) (j : ℕ)
      → All IsSub calls
      → os.tasks.n_tasks ≤ cfg.max_tasks
      → j < os.tasks.n_tasks
      → IsDelay (os.tasks.task_list j)
      → 0 < (os.tasks.task_list j).time
      → Returns (sub_ticks calls os) (λ os'.
        Delayed
          (os.tasks.task_list j)
          (elapsed (os.tasks.task_list j).clock_id calls)
          (os'.tasks.task_list j))
  unfolding sub_ticks
  sub_ticks-Delayed [] os j h le hj w pos = ground arith
  sub_ticks-Delayed ((clock_id, n) ∷ calls) os j h le hj w pos =
      Returns_bind (os_sub_n_tick cfg clock_id n os) (sub_ticks calls) _ _
        (os_sub_n_tick_lem clock_id n os h.0 le)
        (λ s q.
          let t = os.tasks.task_list j in
          let e : s.tasks.task_list j ≡ ticked clock_id n t = ground (arith, q.0.2 j) in
          elim (dec_lt (if clock_id == t.clock_id then n else 0) t.time) [
            | yes more ↦
                let u = s.tasks.task_list j in
                let (m₁, m₂, m₃) = ticked_waits clock_id n t w more in
                let hs : u.state ≡ t.state = cc (e, m₁) in
                let hc : u.clock_id ≡ t.clock_id = cc (e, m₂) in
                let ht : u.time ≡ t.time - (if clock_id == t.clock_id then n else 0) = cc (e, m₃) in
                Returns_mono (sub_ticks calls s) _ _
                  (subst
                    (λ c.
                      Returns (sub_ticks calls s)
                        (λ os'. Delayed u (elapsed c calls) (os'.tasks.task_list j)))
                    hc
                    (sub_ticks-Delayed calls s j h.1 (omega (arith, q.0.0)) (omega (arith, q.0.0))
                      (ground (arith, hs)) (omega (arith, ht))))
                  (λ os' r. Delayed-add t u (os'.tasks.task_list j) _ _ more hs ht r)
            | no over ↦
                Returns_mono (sub_ticks calls s) _ _
                  (ready_stays calls s j h.1 (omega (arith, q.0.0))
                    (cc (e, (ticked_ends clock_id n t w pos (omega arith)).0))
                    (cc (e, (ticked_ends clock_id n t w pos (omega arith)).1)))
                  (λ os' r. ground arith)
          ])
