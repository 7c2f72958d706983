-- ===== src/Sem/InRange.antt =====
-- os_sem/src/os_sem.c: the operations on a semaphore of the table, without their guards.
use coco_os.Base.{ℕ, ◌+◌, ◌-◌, ◌<◌, ◌≡◌, arith}
use coco_os.Base.Tests.{ltb, if◌then◌else◌}
use coco_os.Base.Outcome.{ok}
use coco_os.Config.{Config, total_semaphores}
use coco_os.Sem.{Sems, store, os_sem_larger_than_zero, os_sem_decrement, os_sem_increment}

module _ (cfg : Config) (sem : ℕ) (ss : Sems) (fits : sem < total_semaphores cfg) where
  pub larger_in_range : os_sem_larger_than_zero cfg sem ss ≡ ok (ltb 0 (ss.sem_list sem).value)
  unfolding os_sem_larger_than_zero
  larger_in_range = ground arith

  pub decrement_in_range :
      os_sem_decrement cfg sem ss
      ≡ ok
          (if ltb 0 (ss.sem_list sem).value then store ss sem ((ss.sem_list sem).value - 1) else ss)
  unfolding os_sem_decrement
  decrement_in_range = ground arith

  pub increment_in_range :
      os_sem_increment cfg sem ss
      ≡ ok (
          if ltb (ss.sem_list sem).value (ss.sem_list sem).max_value
          then store ss sem ((ss.sem_list sem).value + 1)
          else ss)
  unfolding os_sem_increment
  increment_in_range = ground arith
