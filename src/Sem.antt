-- ===== src/Sem.antt =====
-- os_sem/src/os_sem.c: the semaphores. A `Sem_t` is an int16, here as its 16-bit pattern.
pub mod Counter
pub mod InRange
pub mod Creation
use coco_os.Base.{ℕ, ◌+◌, ◌-◌, ◌%◌, Bool, false}
use coco_os.Base.Tests.{ltb, ◌==◌, if◌then◌else◌}
use coco_os.Base.Arrays.{update}
use coco_os.Base.Outcome.{Result, ok, os_assert, in_range, ◌>>◌}
use coco_os.Config.{Config, total_semaphores}

-- `SemValue_t`, both of a byte
pub record SemValue : Type 0 where
  pub max_value : ℕ
  pub value : ℕ

-- The static variables of the file.
pub record Sems : Type 0 where
  pub sem_list : ℕ → SemValue
  pub n_semaphores : ℕ  -- uint8

-- `(Sem_t) -1`
abbrev pub minus_one : ℕ
minus_one = 65535

abbrev pub store : Sems → ℕ → ℕ → Sems
store ss sem v = record ss {
  sem_list = update ss.sem_list sem (record (ss.sem_list sem) { value = v });
}

module _ (cfg : Config) where
  -- Of the build with no semaphores each function is a constant or does nothing.
  abbrev no_semaphores : Bool
  no_semaphores = total_semaphores cfg == 0

  unfoldable pub os_sem_init : Sems → Sems
  os_sem_init ss = if no_semaphores then ss else record ss { n_semaphores = 0 }

  -- Both arguments are bytes.
  unfoldable pub os_sem_create : ℕ → ℕ → Sems → Result (ℕ × Sems)
  os_sem_create max initial ss = if no_semaphores then ok (minus_one, ss) else do
    os_assert (ltb ss.n_semaphores (total_semaphores cfg))
    let n = (ss.n_semaphores + 1) % 256
    ok (
      (n + 65536 - 1) % 65536,
      record {
        sem_list =
            update ss.sem_list ss.n_semaphores
              (record { max_value = max % 256; value = initial % 256 });
        n_semaphores = n;
      },
    )

  pub sem_bin_create : Bool → Sems → Result (ℕ × Sems)
  unfolding os_sem_create
  sem_bin_create initial = os_sem_create 1 (if initial then 1 else 0)

  pub sem_counting_create : ℕ → ℕ → Sems → Result (ℕ × Sems)
  unfolding os_sem_create
  sem_counting_create max initial = os_sem_create max initial

  pub os_sem_value_get : ℕ → Sems → Result ℕ
  os_sem_value_get sem ss =
      if no_semaphores
      then ok 0
      else do in_range (ltb sem (total_semaphores cfg)); ok (ss.sem_list sem).value

  pub os_sem_larger_than_zero : ℕ → Sems → Result Bool
  os_sem_larger_than_zero sem ss =
      if no_semaphores
      then ok false
      else do in_range (ltb sem (total_semaphores cfg)); ok (ltb 0 (ss.sem_list sem).value)

  pub os_sem_decrement : ℕ → Sems → Result Sems
  os_sem_decrement sem ss = if no_semaphores then ok ss else do
    in_range (ltb sem (total_semaphores cfg))
    let v = (ss.sem_list sem).value
    ok (if ltb 0 v then store ss sem (v - 1) else ss)

  pub os_sem_increment : ℕ → Sems → Result Sems
  os_sem_increment sem ss = if no_semaphores then ok ss else do
    in_range (ltb sem (total_semaphores cfg))
    let v = (ss.sem_list sem).value
    ok (if ltb v (ss.sem_list sem).max_value then store ss sem (v + 1) else ss)

  pub os_sem_num_sems_get : Sems → ℕ
  os_sem_num_sems_get ss = ss.n_semaphores
