-- ===== src/System/Messages/TickSafety.antt =====
-- os_msgqueue/src/os_msgqueue.c: `os_msgQ_tick` on the queue of a task keeps the state of the kernel
-- well-formed.
use coco_os.Base.{◌≡◌, ℕ, zero, suc, ◌+◌, ◌-◌, ◌<◌, refl, arith, inl, inr}
use coco_os.Base.Tests.{ltb, ◌==◌, Bool-cases}
use coco_os.Base.Arrays.{update}
use coco_os.Base.Outcome.{
  ok, Result, in_range, ◌>>=◌, Returns, Partly, Partly_bind, Partly_mono, Partly_any,
  Partly_of_Safe, Returns_of_Partly,
}
use coco_os.Config.{Config}
use coco_os.MsgQueue.{OsQueue, next_slot, set_queue, no_queues}
use coco_os.System.{Os}
use coco_os.System.Invariant.{IsSound, IsWell, Keeps, Keeps-refl, Keeps-trans}
use coco_os.System.Signals.{event_isr_signal}
use coco_os.System.Signals.Safety.{event_isr_signal-Keeps}
use coco_os.System.Messages.{tick_message, tick_from, os_msg_q_tick}
use coco_os.System.Messages.Safety.{set_queue-Keeps}
use coco_os.System.Messages.Ticking.{os_msg_q_tick_lem}

module _ (cfg : Config) (sound : IsSound cfg) (queue : ℕ) where
  -- What one round leaves, if it returns.
  abbrev Held : Os → Result Os → Type 0
  Held os r = Partly r (Keeps cfg os)

  Held-bind :
      (os : Os) (r : Result Os) (f : Os → Result Os)
      → Held os r
      → ((os' : Os) → Keeps cfg os os' → Held os' (f os'))
      → Held os (r >>= f)
  Held-bind os r f h k = Partly_bind r f (Keeps cfg os) (Keeps cfg os) h (λ os' s.
      Partly_mono (f os') (Keeps cfg os') (Keeps cfg os) (k os' s) (Keeps-trans cfg os os' s))

  tick_message-Held :
      (p : ℕ) (os : Os)
      → IsWell cfg os
      → queue < os.queues.n_queues
      → Held os (tick_message cfg queue p os)
  unfolding tick_message
  tick_message-Held p os w hq =
      let q = (os.queues.msg_q_list queue).q in
      let m = q.list p in
      let v = w.valid queue hq in
      let q' : OsQueue = record q { list = update q.list p (record m { delay = m.delay - 1 }) } in
      let stepped : Os = record os { queues = set_queue queue q' os.queues } in
      let kept : Keeps cfg os stepped =
        set_queue-Keeps cfg sound queue q' os w
          (record { slots = v.slots; byte = v.byte; head_in = v.head_in; tail_in = v.tail_in }) in
      elim (Bool-cases (ltb p q.size)) [
        | inr out ↦ rw out tt
        | inl here ↦ elim (Bool-cases (ltb 0 m.delay)) [
          | inr now ↦ rw (here, now) (Keeps-refl cfg os w)
          | inl more ↦ elim (Bool-cases (m.delay - 1 == 0)) [
            | inr later ↦ rw (here, more, later) kept
            | inl due ↦
                rw (here, more, due)
                  (Partly_mono (event_isr_signal cfg (os.queues.msg_q_list queue).change stepped) _
                    _
                    (Partly_of_Safe _ (Keeps cfg stepped) (
                      event_isr_signal-Keeps cfg sound (os.queues.msg_q_list queue).change stepped
                        kept.0 (omega (arith, w.known queue hq, w.events_fit))))
                    (Keeps-trans cfg os stepped kept))
          ]
        ]
      ]

  tick_from-Held :
      (fuel head p : ℕ) (os : Os)
      → IsWell cfg os
      → queue < os.queues.n_queues
      → Held os (tick_from cfg fuel queue head p os)
  unfolding tick_from
  tick_from-Held zero head p os w hq = tt
  tick_from-Held (suc fuel) head p os w hq = elim (Bool-cases (p == head)) [
    | inl last ↦ rw last (Keeps-refl cfg os w)
    | inr more ↦ rw more (
        Held-bind os (tick_message cfg queue p os) _ (tick_message-Held p os w hq) (λ os' k.
          Partly_bind (next_slot (os'.queues.msg_q_list queue).q p) _ (λ n. Unit {0})
            (Keeps cfg os') (Partly_any (next_slot (os'.queues.msg_q_list queue).q p))
            (λ n u. tick_from-Held fuel head n os' k.0 (omega (arith, k.1.2, hq)))))
  ]

  pub os_msg_q_tick-Keeps :
      (os : Os)
      → IsWell cfg os
      → queue < os.queues.n_queues
      → Returns (os_msg_q_tick cfg queue os) (Keeps cfg os)
  unfolding os_msg_q_tick
  os_msg_q_tick-Keeps os w hq =
      let q = (os.queues.msg_q_list queue).q in
      Returns_of_Partly (os_msg_q_tick cfg queue os) _ (Keeps cfg os)
        (os_msg_q_tick_lem cfg queue (os.queues.msg_q_list queue).change
          (omega (arith, w.known queue hq, w.events_fit))
          (sound.roomy _ (omega (arith, w.known queue hq, w.events_fit))) os
          (omega (arith, w.queues_fit)) refl w.tasks_fit (w.valid queue hq))
        (elim (Bool-cases (no_queues cfg)) [
          | inl none_there ↦ rw none_there (Keeps-refl cfg os w)
          | inr there ↦ rw there (
              Partly_bind (in_range (ltb queue cfg.max_queues)) _ (λ u. Unit {0}) (Keeps cfg os)
                (Partly_any (in_range (ltb queue cfg.max_queues)))
                (λ u₁ u₂.
                  Partly_bind (next_slot q q.tail) _ (λ n. Unit {0}) (Keeps cfg os)
                    (Partly_any (next_slot q q.tail))
                    (λ n u. tick_from-Held (q.size + 1) q.head n os w hq)))
        ])

-- In a build with no queues the function is empty.
pub no_queues-tick :
    (cfg : Config) (queue : ℕ) (os : Os) → cfg.max_queues ≡ 0 → os_msg_q_tick cfg queue os ≡ ok os
unfolding os_msg_q_tick
no_queues-tick cfg queue os z = ground arith
