-- ===== src/Task/Events/Frame.antt =====
-- os_task/src/os_task.c: waiting for an event and signaling one write to a task only its state, its
-- timer and its wait queue.
use coco_os.Base.{inr, inl, ℕ, zero, suc, ◌/◌, ◌%◌, ◌<◌, Bool, false, ◌&&◌, ◌||◌, not, arith}
use coco_os.Base.Tests.{ltb, ◌==◌, if◌then◌else◌, Bool-cases}
use coco_os.Base.Bits.{set_bit-lt, clear_bit-lt}
use coco_os.Base.Arrays.{update, for_range_partly}
use coco_os.Base.Outcome.{◌>>=◌, Partly, Partly_bind, Partly_any, Partly_mono}
use coco_os.Config.{Config, event_queue_size}
use coco_os.Task.{
  Tcb, Tasks, waiting_event, waiting_event_timeout, modify, fill, task_ready_set,
  os_task_wait_time_set,
}
use coco_os.Task.Frame.{
  Licence, IsFrame, Each, Each-refl, Each-trans, Each-bind, modify-Each, read-Each,
  task_ready_set-Each, os_task_wait_time_set-Each, u32,
}
use coco_os.Task.Events.{
  is_waiting_event, event_index, awaits, add_event, drop_event, clear_wait_queue, wake, take_signal,
  os_task_clear_wait_queue, os_task_wait_queue_empty, os_task_wait_event, signal_task,
  os_task_signal_event,
}

-- Whatever is done to the bytes of a wait queue, they stay bytes.
pub fill-lt : (n v : ℕ) (q : ℕ → ℕ) (i : ℕ) → v < 256 → ((k : ℕ) → q k < 256) → fill n v q i < 256
unfolding fill
fill-lt zero v q i hv h = h i
fill-lt (suc n) v q i hv h = fill-lt n v (update q n v) i hv (λ k. ground (arith, h k))

add_event-lt :
    (e i : ℕ) (t : Tcb) → ((k : ℕ) → t.event_queue k < 256) → (add_event e t).event_queue i < 256
add_event-lt e i t h =
    ground (arith, h i, set_bit-lt (t.event_queue (e / 8)) (e % 8) (h (e / 8)) (omega arith))

drop_event-lt :
    (e i : ℕ) (t : Tcb) → ((k : ℕ) → t.event_queue k < 256) → (drop_event e t).event_queue i < 256
drop_event-lt e i t h =
    ground (arith, h i, clear_bit-lt (t.event_queue (e / 8)) (e % 8) (h (e / 8)) (omega arith))

module _ (cfg : Config) (l : Licence) (R : ℕ → Tcb → Tcb → Type 0) (frame : IsFrame l R) where
  pub os_task_clear_wait_queue-Each :
      (tid : ℕ) (ts : Tasks) → Partly (os_task_clear_wait_queue cfg tid ts) (Each R ts)
  unfolding os_task_clear_wait_queue
  os_task_clear_wait_queue-Each tid ts =
      let t = ts.task_list tid in
      let many = record t { wait_single_event = false } in
      modify-Each cfg l R frame tid (clear_wait_queue cfg) ts (
        frame.after tid t many (clear_wait_queue cfg t) (frame.single tid t false) (
          frame.bytes tid many (clear_wait_queue cfg t).event_queue
            (λ i h. fill-lt (event_queue_size cfg) 0 t.event_queue i (omega arith) h)))

  park-Each :
      (tid timeout : ℕ) (ts : Tasks)
      → l.Fits u32 timeout
      → Partly
          (if not (timeout == 0)
            then os_task_wait_time_set cfg tid 0 timeout ts
              >>= modify cfg tid (λ t. record t { state = waiting_event_timeout })
            else modify cfg tid (λ t. record t { state = waiting_event }) ts)
          (Each R ts)
  park-Each tid timeout ts fits = elim (Bool-cases (timeout == 0)) [
    | inl z ↦ rw z (
        modify-Each cfg l R frame tid (λ t. record t { state = waiting_event }) ts
          (frame.state tid (ts.task_list tid) waiting_event))
    | inr nz ↦ rw nz (
        Each-bind cfg l R frame ts (os_task_wait_time_set cfg tid 0 timeout ts)
          (modify cfg tid (λ t. record t { state = waiting_event_timeout }))
          (os_task_wait_time_set-Each cfg l R frame tid ts 0 timeout (l.fits 256 0 (omega arith))
            fits)
          (λ ts₁ s.
            modify-Each cfg l R frame tid (λ t. record t { state = waiting_event_timeout }) ts₁
              (frame.state tid (ts₁.task_list tid) waiting_event_timeout)))
  ]

  pub os_task_wait_event-Each :
      (tid event : ℕ) (single : Bool) (timeout : ℕ) (ts : Tasks)
      → l.Fits u32 timeout
      → Partly (os_task_wait_event cfg tid event single timeout ts) (Each R ts)
  unfolding os_task_wait_event
  os_task_wait_event-Each tid event single timeout ts fits =
      elim (Bool-cases (ltb tid ts.n_tasks)) [
        | inr out ↦ rw out tt
        | inl inside ↦ elim (Bool-cases (ltb (event_index event) (event_queue_size cfg))) [
          | inr past ↦ rw (inside, past) tt
          | inl room ↦
              rw (inside, room)
                (Each-bind cfg l R frame ts (modify cfg tid (add_event event) ts) _
                  (modify-Each cfg l R frame tid (add_event event) ts (
                    frame.bytes tid (ts.task_list tid)
                      (add_event event (ts.task_list tid)).event_queue
                      (λ i h. add_event-lt event i (ts.task_list tid) h)))
                  (λ ts₁ s₁.
                    Each-bind cfg l R frame ts₁
                      (modify cfg tid (λ t. record t { wait_single_event = single }) ts₁) _
                      (modify-Each cfg l R frame tid (λ t. record t { wait_single_event = single })
                        ts₁ (frame.single tid (ts₁.task_list tid) single))
                      (λ ts₂ s₂. park-Each tid timeout ts₂ fits)))
        ]
      ]

  wake-Each : (i : ℕ) (ts : Tasks) → Partly (wake cfg i ts) (Each R ts)
  wake-Each i ts =
      Each-bind cfg l R frame ts (os_task_clear_wait_queue cfg i ts) (task_ready_set cfg i)
        (os_task_clear_wait_queue-Each i ts) (λ ts₁ s. task_ready_set-Each cfg l R frame i ts₁)

  take_signal-Each : (i : ℕ) (ts : Tasks) → Partly (take_signal cfg i ts) (Each R ts)
  take_signal-Each i ts = read-Each cfg l R frame i ts _ (
      Partly_bind (os_task_wait_queue_empty cfg i ts) _ _ (Each R ts)
        (Partly_any (os_task_wait_queue_empty cfg i ts))
        (λ empty u. elim (Bool-cases ((ts.task_list i).wait_single_event || empty)) [
          | inl done ↦ rw done (wake-Each i ts)
          | inr more ↦ rw more (Each-refl cfg l R frame ts)
        ]))

  signal_task-Each : (event i : ℕ) (ts : Tasks) → Partly (signal_task cfg event i ts) (Each R ts)
  unfolding signal_task
  signal_task-Each event i ts =
      read-Each cfg l R frame i ts _
        (elim (Bool-cases (ltb (event_index event) (event_queue_size cfg))) [
          | inr past ↦ rw past tt
          | inl room ↦
              let t = ts.task_list i in
              elim (Bool-cases (awaits t event && is_waiting_event t.state)) [
                | inr no_wait ↦ rw (room, no_wait) (Each-refl cfg l R frame ts)
                | inl waits ↦
                    rw (room, waits)
                      (Each-bind cfg l R frame ts (modify cfg i (drop_event event) ts)
                        (take_signal cfg i)
                        (modify-Each cfg l R frame i (drop_event event) ts (
                          frame.bytes i t (drop_event event t).event_queue
                            (λ k h. drop_event-lt event k t h)))
                        (λ ts₁ s. take_signal-Each i ts₁))
              ]
        ])

  pub os_task_signal_event-Each :
      (event : ℕ) (ts : Tasks) → Partly (os_task_signal_event cfg event ts) (Each R ts)
  unfolding os_task_signal_event
  os_task_signal_event-Each event ts =
      for_range_partly (Each R ts) (signal_task cfg event)
        (λ i s h.
          Partly_mono (signal_task cfg event i s) (Each R s) (Each R ts)
            (signal_task-Each event i s) (Each-trans cfg l R frame ts s h))
        ts.n_tasks 0 ts (Each-refl cfg l R frame ts)
