-- ===== src/Sem/Counter.antt =====
-- os_sem/src/os_sem.c: each semaphore as a counter between 0 and its maximum.
use coco_os.Base.{ℕ, ◌+◌, ◌-◌, ◌<◌, ◌≡◌, refl, arith, List, [], ◌∷◌}
use mathlib.Core.Path.{ap₂, ◌∙◌}
use coco_os.Base.Tests.{ltb, ◌==◌, if◌then◌else◌}
use coco_os.Base.Outcome.{Result, ok, Returns, Returns_bind, Returns_mono, ◌>>=◌}
use coco_os.Base.Lists.{All}
use coco_os.Config.{Config, total_semaphores}
use coco_os.Sem.{Sems, os_sem_increment, os_sem_decrement}

-- A call on one semaphore.
pub data SemCall : Type 0 where
  up down : ℕ → SemCall

abbrev pub target : SemCall → ℕ
target (up sem) = sem
target (down sem) = sem

-- The counter `k` after a call.
abbrev pub count : ℕ → ℕ → SemCall → ℕ → ℕ
count max k (up sem) v = if sem == k then (if ltb v max then v + 1 else v) else v
count max k (down sem) v = if sem == k then v - 1 else v

abbrev pub counts : ℕ → ℕ → List SemCall → ℕ → ℕ
counts max k [] v = v
counts max k (c ∷ cs) v = counts max k cs (count max k c v)

module _ (cfg : Config) where
  abbrev pub call : SemCall → Sems → Result Sems
  call (up sem) = os_sem_increment cfg sem
  call (down sem) = os_sem_decrement cfg sem

  pub calls : List SemCall → Sems → Result Sems
  calls [] ss = ok ss
  calls (c ∷ cs) ss = call c ss >>= calls cs

  -- Semaphore `k` has the value `v` and its old maximum.
  abbrev pub HasCount : Sems → ℕ → ℕ → Sems → Type 0
  HasCount ss k v ss' =
      ((ss'.sem_list k).value ≡ v)
      × ((ss'.sem_list k).max_value ≡ (ss.sem_list k).max_value)
      × (ss'.n_semaphores ≡ ss.n_semaphores)

  call_lem :
      (c : SemCall) (ss : Sems) (k : ℕ)
      → target c < total_semaphores cfg
      → Returns
          (call c ss)
          (HasCount ss k (count (ss.sem_list k).max_value k c (ss.sem_list k).value))
  unfolding os_sem_increment os_sem_decrement
  call_lem (up sem) ss k h = ground arith
  call_lem (down sem) ss k h = ground arith

  abbrev pub InTable : SemCall → Type 0
  InTable c = target c < total_semaphores cfg

  counted :
      (cs : List SemCall) (ss : Sems) (k max v : ℕ)
      → All InTable cs
      → (ss.sem_list k).max_value ≡ max
      → (ss.sem_list k).value ≡ v
      → Returns (calls cs ss) (λ ss'.
        ((ss'.sem_list k).value ≡ counts max k cs v)
        × ((ss'.sem_list k).max_value ≡ max)
        × (ss'.n_semaphores ≡ ss.n_semaphores))
  unfolding calls
  counted [] ss k max v h em ev = (ev, em, refl)
  counted (c ∷ cs) ss k max v h em ev =
      Returns_bind (call c ss) (calls cs) _ _ (call_lem c ss k h.0) (λ s e.
        Returns_mono (calls cs s) _ _
          (counted cs s k max (count max k c v) h.1 (e.1 ∙ em)
            (e.0 ∙ ap₂ (λ m w. count m k c w) em ev))
          (λ s' e'. (e'.0, e'.1, e'.2 ∙ e.2)))

  -- Calls of `os_sem_increment` and `os_sem_decrement` on semaphores of the table, in any order,
  -- return, and each semaphore counts its own calls: up to its maximum, down to 0.
  pub calls_lem :
      (cs : List SemCall) (ss : Sems)
      → All InTable cs
      → (k : ℕ)
      → Returns
          (calls cs ss)
          (HasCount ss k (counts (ss.sem_list k).max_value k cs (ss.sem_list k).value))
  calls_lem cs ss h k = counted cs ss k _ _ h refl refl
