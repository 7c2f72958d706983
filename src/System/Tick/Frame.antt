-- ===== src/System/Tick/Frame.antt =====
-- os_task/src/os_task.c: what `task_tick` writes to the tasks.
use coco_os.Base.{inr, inl, ℕ, ◌+◌, ◌-◌, ◌%◌, ◌||◌, not}
use coco_os.Base.Tests.{leb, ◌==◌, if◌then◌else◌, Bool-cases}
use coco_os.Base.Arrays.{for_range_partly}
use coco_os.Base.Outcome.{◌>>=◌, Partly, Partly_mono}
use coco_os.Config.{Config, no_queue}
use coco_os.Task.{
  Tcb, Tasks, is, waiting_time, waiting_event_timeout, waiting_sem, task_at, modify, task_ready_set,
}
use coco_os.Task.Frame.{
  Licence, IsFrame, Each, Each-refl, Each-bind, modify-Each, read-Each, task_ready_set-Each,
}
use coco_os.Task.Events.{os_task_clear_wait_queue}
use coco_os.Task.Events.Frame.{os_task_clear_wait_queue-Each}
use coco_os.System.{Os, on_tasks}
use coco_os.System.Frame.{Steps, Steps-refl, Steps-trans, Steps-bind, on_tasks-Steps}
use coco_os.System.Messages.Frame.{os_msg_q_tick-Steps}
use coco_os.System.Tick.{expire, tick_time, tick_queue, task_tick, u32_mod}

module _ (cfg : Config) (l : Licence) (R : ℕ → Tcb → Tcb → Type 0) (frame : IsFrame l R) where
  expire-Each : (i : ℕ) (ts : Tasks) → Partly (expire cfg i ts) (Each R ts)
  expire-Each i ts = read-Each cfg l R frame i ts _ (
      Each-bind cfg l R frame ts (modify cfg i (λ t. record t { time = 0 }) ts) _
        (modify-Each cfg l R frame i (λ t. record t { time = 0 }) ts
          (frame.expired i (ts.task_list i)))
        (λ ts₁ s. elim (Bool-cases (is (ts.task_list i).state waiting_event_timeout)) [
          | inl timed ↦ rw timed (
              Each-bind cfg l R frame ts₁ (os_task_clear_wait_queue cfg i ts₁)
                (task_ready_set cfg i) (os_task_clear_wait_queue-Each cfg l R frame i ts₁)
                (λ ts₂ s. task_ready_set-Each cfg l R frame i ts₂))
          | inr plain ↦ rw plain (task_ready_set-Each cfg l R frame i ts₁)
        ]))

  tick_time-Each :
      (clock_id n i : ℕ) (ts : Tasks) → Partly (tick_time cfg clock_id n i ts) (Each R ts)
  unfolding tick_time
  tick_time-Each clock_id n i ts =
      let t = ts.task_list i in
      read-Each cfg l R frame i ts _
        (elim (Bool-cases (is t.state waiting_time || is t.state waiting_event_timeout)) [
          | inl timed ↦ rw timed (elim (Bool-cases (t.clock_id == clock_id)) [
            | inr other ↦ rw other (Each-refl cfg l R frame ts)
            | inl own ↦ rw own (elim (Bool-cases (leb t.time n)) [
              | inl over ↦ rw over (expire-Each i ts)
              | inr left ↦ rw left (
                  modify-Each cfg l R frame i (λ u. record u { time = u.time - n }) ts
                    (frame.less_time i t n))
            ])
          ])
          | inr not_timed ↦ rw not_timed (elim (Bool-cases (is t.state waiting_sem)) [
            | inr other ↦ rw other (Each-refl cfg l R frame ts)
            | inl waits ↦ rw waits (
                modify-Each cfg l R frame i (λ u. record u { time = (u.time + 1) % u32_mod }) ts
                  (frame.more_time i t))
          ])
        ])

  tick_queue-Steps : (clock_id i : ℕ) (os : Os) → Partly (tick_queue cfg clock_id i os) (Steps R os)
  unfolding tick_queue task_at
  tick_queue-Steps clock_id i os = elim (Bool-cases (clock_id == 0)) [
    | inr sub ↦ rw sub (Steps-refl cfg l R frame os)
    | inl main ↦ rw main (elim (Bool-cases (coco_os.Base.Tests.ltb i cfg.max_tasks)) [
      | inr out ↦ rw out tt
      | inl inside ↦ rw inside (
          let queue = (os.tasks.task_list i).msg_q in
          elim (Bool-cases (queue == no_queue)) [
            | inl none_there ↦ rw none_there (Steps-refl cfg l R frame os)
            | inr own ↦ rw own (os_msg_q_tick-Steps cfg l R frame queue os)
          ])
    ])
  ]

  pub task_tick-Steps :
      (clock_id n : ℕ) (os : Os) → Partly (task_tick cfg clock_id n os) (Steps R os)
  unfolding task_tick
  task_tick-Steps clock_id n os =
      let round = λ (i : ℕ) (os : Os).
        on_tasks (tick_time cfg clock_id n i) os >>= tick_queue cfg clock_id i in
      for_range_partly (Steps R os) round
        (λ i os₁ h.
          Partly_mono (round i os₁) (Steps R os₁) (Steps R os)
            (Steps-bind cfg l R frame os₁ (on_tasks (tick_time cfg clock_id n i) os₁)
              (tick_queue cfg clock_id i)
              (on_tasks-Steps cfg l R frame (tick_time cfg clock_id n i) os₁
                (tick_time-Each clock_id n i os₁.tasks))
              (λ os₂ s. tick_queue-Steps clock_id i os₂))
            (Steps-trans cfg l R frame os os₁ h))
        os.tasks.n_tasks 0 os (Steps-refl cfg l R frame os)
