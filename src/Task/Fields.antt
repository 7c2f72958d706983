-- ===== src/Task/Fields.antt =====
-- os_task/src/os_task.c: the accessors of one field, most of them with no check of the task id, and
-- the tests on the internal state.
use coco_os.Base.{ℕ, ◌%◌, Bool, ◌||◌}
use coco_os.Base.Tests.{◌==◌}
use coco_os.Base.Outcome.{Result, ok, ◌>>=◌}
use coco_os.Config.{Config}
use coco_os.Task.{Tasks, task_at, modify, code, killed}

module _ (cfg : Config) where
  unfoldable pub task_internal_state_get : ℕ → Tasks → Result ℕ
  task_internal_state_get tid ts = do t ← task_at cfg tid ts; ok t.internal_state

  unfoldable pub os_task_internal_state_set : ℕ → ℕ → Tasks → Result Tasks
  os_task_internal_state_set tid state = modify cfg tid (λ t. record t { internal_state = state })

  pub os_task_msg_q_get : ℕ → Tasks → Result ℕ
  os_task_msg_q_get tid ts = do t ← task_at cfg tid ts; ok t.msg_q

  unfoldable pub os_task_set_wait_queue : ℕ → ℕ → Tasks → Result Tasks
  os_task_set_wait_queue tid queue = modify cfg tid (λ t. record t { wait_q = queue })

  pub os_task_get_wait_queue : ℕ → Tasks → Result ℕ
  os_task_get_wait_queue tid ts = do t ← task_at cfg tid ts; ok t.wait_q

  unfoldable pub os_task_set_change_event : ℕ → ℕ → Tasks → Result Tasks
  os_task_set_change_event tid event = modify cfg tid (λ t. record t { msg_change_event = event })

  unfoldable pub os_task_get_change_event : ℕ → Tasks → Result ℕ
  os_task_get_change_event tid ts = do t ← task_at cfg tid ts; ok t.msg_change_event

  unfoldable pub os_task_set_msg_result : ℕ → ℕ → Tasks → Result Tasks
  os_task_set_msg_result tid result = modify cfg tid (λ t. record t { msg_result = result })

  unfoldable pub os_task_get_msg_result : ℕ → Tasks → Result ℕ
  os_task_get_msg_result tid ts = do t ← task_at cfg tid ts; ok t.msg_result

  pub os_task_timeout_get : ℕ → Tasks → Result ℕ
  os_task_timeout_get tid ts = do t ← task_at cfg tid ts; ok t.time

  -- `task_get_data`, with the running task's id
  pub task_get_data : ℕ → Tasks → Result ℕ
  task_get_data running_tid ts = do t ← task_at cfg running_tid ts; ok t.data_ptr

  -- The internal state is cut to a byte here.
  pub task_should_run_test : ℕ → Tasks → Result Bool
  task_should_run_test id ts = do
    s ← task_internal_state_get id ts
    ok (s % 256 == 0 || s % 256 == 99)

  pub task_is_killed : ℕ → Tasks → Result Bool
  unfolding task_internal_state_get task_at
  task_is_killed id ts = do s ← task_internal_state_get id ts; ok (s % 256 == code killed)
