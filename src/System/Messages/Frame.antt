-- ===== src/System/Messages/Frame.antt =====
-- os_msgqueue/src/os_msgqueue.c: a tick of a queue writes to the tasks only what its signals write.
use coco_os.Base.{◌+◌, inl, inr, ℕ, zero, suc, ◌-◌}
use coco_os.Base.Tests.{ltb, ◌==◌, Bool-cases}
use coco_os.Base.Outcome.{Partly, Partly_bind, Partly_any}
use coco_os.Config.{Config}
use coco_os.Task.{Tcb}
use coco_os.Task.Frame.{Licence, IsFrame}
use coco_os.MsgQueue.{Msg, no_queues, next_slot, read_slot, write_slot, set_queue}
use coco_os.System.{Os}
use coco_os.System.Frame.{Steps, Steps-refl, Steps-bind}
use coco_os.System.Signals.Frame.{event_isr_signal-Steps}
use coco_os.System.Messages.{tick_message, tick_from, os_msg_q_tick}

module _ (cfg : Config) (l : Licence) (R : ℕ → Tcb → Tcb → Type 0) (frame : IsFrame l R) where
  tick_message-Steps :
      (queue next : ℕ) (os : Os) → Partly (tick_message cfg queue next os) (Steps R os)
  unfolding tick_message
  tick_message-Steps queue next os =
      let q = (os.queues.msg_q_list queue).q in
      Partly_bind (read_slot q next) _ _ (Steps R os) (Partly_any (read_slot q next)) (λ m u.
        elim (Bool-cases (ltb 0 m.delay)) [
          | inr due ↦ rw due (Steps-refl cfg l R frame os)
          | inl waits ↦
              let m' : Msg = record m { delay = m.delay - 1 } in
              rw waits (
                Partly_bind (write_slot q next m') _ _ (Steps R os)
                  (Partly_any (write_slot q next m'))
                  (λ q' u.
                    let os₁ : Os = record os { queues = set_queue queue q' os.queues } in
                    elim (Bool-cases (m.delay - 1 == 0)) [
                      | inl now ↦ rw now (
                          event_isr_signal-Steps cfg l R frame (os.queues.msg_q_list queue).change
                            os₁)
                      | inr later ↦ rw later (Steps-refl cfg l R frame os₁)
                    ]))
        ])

  tick_from-Steps :
      (fuel queue head next : ℕ) (os : Os)
      → Partly (tick_from cfg fuel queue head next os) (Steps R os)
  unfolding tick_from
  tick_from-Steps zero queue head next os = tt
  tick_from-Steps (suc fuel) queue head next os = elim (Bool-cases (next == head)) [
    | inl end ↦ rw end (Steps-refl cfg l R frame os)
    | inr more ↦ rw more (
        Steps-bind cfg l R frame os (tick_message cfg queue next os) _
          (tick_message-Steps queue next os)
          (λ os' s.
            let q = (os'.queues.msg_q_list queue).q in
            Partly_bind (next_slot q next) (λ n. tick_from cfg fuel queue head n os') _
              (Steps R os') (Partly_any (next_slot q next))
              (λ n u. tick_from-Steps fuel queue head n os')))
  ]

  pub os_msg_q_tick-Steps : (queue : ℕ) (os : Os) → Partly (os_msg_q_tick cfg queue os) (Steps R os)
  unfolding os_msg_q_tick
  os_msg_q_tick-Steps queue os = elim (Bool-cases (no_queues cfg)) [
    | inl nothing ↦ rw nothing (Steps-refl cfg l R frame os)
    | inr there ↦ elim (Bool-cases (ltb queue cfg.max_queues)) [
      | inr out ↦ rw (there, out) tt
      | inl inside ↦
          let q = (os.queues.msg_q_list queue).q in
          rw (there, inside)
            (Partly_bind (next_slot q q.tail) _ _ (Steps R os) (Partly_any (next_slot q q.tail))
              (λ next u. tick_from-Steps (q.size + 1) queue q.head next os))
    ]
  ]
