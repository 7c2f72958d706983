-- ===== src/System/Invariant.antt =====
-- The state of the kernel as a whole: what every operation keeps, and the rules to prove it.
use coco_os.Base.{ℕ, ◌/◌, ◌≤◌, ◌<◌, ◌≡◌, ◌⊎◌, refl, ◌∙◌, arith}
use coco_os.Base.Outcome.{
  Result, ok, halt, assertion, bad_access, div_by_zero, spinning, ◌>>=◌, Safe, Safe_bind, Safe_mono,
}
use coco_os.Config.{Config, IsStatic, total_events, event_queue_size, no_tid, no_queue}
use coco_os.Config.Sizes.{queue_size_iff}
use coco_os.Task.{Tasks}
use coco_os.Task.Shape.{SameShape}
use coco_os.Sem.{Sems}
use coco_os.Event.{Events}
use coco_os.MsgQueue.Span.{IsQueue}
use coco_os.System.NewTask.{IsDistinct}
use coco_os.System.{Os, on_tasks, on_sems, on_events}

-- The static assertions hold, and the wait queues have a bit for each event.
pub record IsSound (cfg : Config) : Type 0 where
  pub static : IsStatic cfg
  pub roomy : (e : ℕ) → e < total_events cfg → e / 8 < event_queue_size cfg

-- Each event fits a byte.
pub few_events : (cfg : Config) → IsSound cfg → total_events cfg < 256
few_events cfg sound = omega (arith, (queue_size_iff (total_events cfg)).0 sound.roomy)

-- What a task has for a queue: none, one of the `n` that were created, or, in a build with no
-- queues, what the empty `os_msgQ_create` returns.
abbrev pub IsOwn : Config → ℕ → ℕ → Type 0
IsOwn cfg n q = (q ≡ no_queue) ⊎ (q < n) ⊎ (cfg.max_queues ≡ 0)

-- The table has room for the tasks that are in it, the running task is one of them or NO_TID, a
-- task's queue is one that was created or none, and each queue that was created is valid and has
-- an event that was created, and no two tasks have the same priority.
pub record IsWell (cfg : Config) (os : Os) : Type 0 where
  pub tasks_fit : os.tasks.n_tasks ≤ cfg.max_tasks
  pub current : (os.running_tid ≡ no_tid) ⊎ (os.running_tid < os.tasks.n_tasks)
  pub own_queue :
      (i : ℕ) → i < os.tasks.n_tasks → IsOwn cfg (os.queues.n_queues) (os.tasks.task_list i).msg_q
  pub events_fit : os.events.n_events ≤ total_events cfg
  pub queues_fit : os.queues.n_queues ≤ cfg.max_queues
  pub valid : (k : ℕ) → k < os.queues.n_queues → IsQueue (os.queues.msg_q_list k).q
  pub known :
      (k : ℕ) → k < os.queues.n_queues → (os.queues.msg_q_list k).change < os.events.n_events
  pub distinct : IsDistinct os.tasks

-- Nothing has been created, and the same task runs.
abbrev pub SameCounts : Os → Os → Type 0
SameCounts os os' =
    (os'.running_tid ≡ os.running_tid)
    × (os'.tasks.n_tasks ≡ os.tasks.n_tasks)
    × (os'.queues.n_queues ≡ os.queues.n_queues)
    × (os'.events.n_events ≡ os.events.n_events)

module _ (cfg : Config) where
  abbrev pub Keeps : Os → Os → Type 0
  Keeps os os' = IsWell cfg os' × SameCounts os os'

  pub Keeps-refl : (os : Os) → IsWell cfg os → Keeps os os
  Keeps-refl os w = (w, (refl, refl, refl, refl))

  pub Keeps-trans : (os os' : Os) → Keeps os os' → (os₂ : Os) → Keeps os' os₂ → Keeps os os₂
  Keeps-trans os os' s os₂ s₂ =
      (s₂.0, (s₂.1.0 ∙ s.1.0, s₂.1.1 ∙ s.1.1, s₂.1.2 ∙ s.1.2, s₂.1.3 ∙ s.1.3))

  -- The rule for two calls.
  pub Keeps-bind :
      (os : Os) (r : Result Os) (f : Os → Result Os)
      → Safe r (Keeps os)
      → ((os' : Os) → Keeps os os' → Safe (f os') (Keeps os'))
      → Safe (r >>= f) (Keeps os)
  Keeps-bind os r f h k =
      Safe_bind r f (Keeps os) (Keeps os) h
        (λ os' s. Safe_mono (f os') (Keeps os') (Keeps os) (k os' s) (Keeps-trans os os' s))

  pub on_tasks-Keeps :
      (f : Tasks → Result Tasks) (os : Os)
      → IsWell cfg os
      → Safe (f os.tasks) (SameShape os.tasks)
      → Safe (on_tasks f os) (Keeps os)
  on_tasks-Keeps f os w h =
      Safe_bind (f os.tasks) (λ ts. ok (record os { tasks = ts })) (SameShape os.tasks) (Keeps os) h
        (λ ts s. (
          record {
            tasks_fit = omega (arith, s.0, w.tasks_fit);
            current = ground (arith, s.0, w.current);
            own_queue = λ i hi. ground (arith, s.0, s.1 i, w.own_queue i);
            events_fit = w.events_fit;
            queues_fit = w.queues_fit;
            valid = w.valid;
            known = w.known;
            distinct = λ i j lt hj. ground (arith, s.0, s.2 i, s.2 j, w.distinct i j lt);
          },
          (refl, s.0, refl, refl),
        ))

  pub on_sems-Keeps :
      (f : Sems → Result Sems) (os : Os)
      → IsWell cfg os
      → Safe (f os.sems) (λ ss. Unit {0})
      → Safe (on_sems f os) (Keeps os)
  on_sems-Keeps f os w h =
      Safe_bind (f os.sems) (λ ss. ok (record os { sems = ss })) (λ ss. Unit {0}) (Keeps os) h
        (λ ss u. (
          record {
            tasks_fit = w.tasks_fit;
            current = w.current;
            own_queue = w.own_queue;
            events_fit = w.events_fit;
            queues_fit = w.queues_fit;
            valid = w.valid;
            known = w.known;
            distinct = w.distinct;
          },
          (refl, refl, refl, refl),
        ))

  pub on_events-Keeps :
      (f : Events → Result Events) (os : Os)
      → IsWell cfg os
      → Safe (f os.events) (λ es. es.n_events ≡ os.events.n_events)
      → Safe (on_events f os) (Keeps os)
  on_events-Keeps f os w h =
      Safe_bind (f os.events) (λ es. ok (record os { events = es }))
        (λ es. es.n_events ≡ os.events.n_events) (Keeps os) h
        (λ es e. (
          record {
            tasks_fit = w.tasks_fit;
            current = w.current;
            own_queue = w.own_queue;
            events_fit = omega (arith, e, w.events_fit);
            queues_fit = w.queues_fit;
            valid = w.valid;
            known = λ k hk. omega (arith, e, w.known k hk);
            distinct = w.distinct;
          },
          (refl, refl, refl, e),
        ))

-- What is done to the tasks leaves the queues.
pub on_tasks-queues :
    (r : Result Tasks) (os : Os) (P : Os → Type 0)
    → Safe (r >>= λ ts. ok (record os { tasks = ts })) P
    → Safe (r >>= λ ts. ok (record os { tasks = ts })) (λ os'. P os' × (os'.queues ≡ os.queues))
on_tasks-queues (ok ts) os P h = (h, refl)
on_tasks-queues (halt assertion) os P h = tt
on_tasks-queues (halt bad_access) os P h = h
on_tasks-queues (halt div_by_zero) os P h = h
on_tasks-queues (halt spinning) os P h = h
