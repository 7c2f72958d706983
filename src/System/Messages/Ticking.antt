-- ===== src/System/Messages/Ticking.antt =====
-- os_msgqueue/src/os_msgqueue.c: `os_msgQ_tick` on a queue with two slots or more.
use coco_os.Base.{
  ℕ, zero, suc, ◌+◌, ◌-◌, ◌/◌, ◌≤◌, ◌<◌, ◌≡◌, ◌≢◌, true, false, refl, arith, inl, inr,
}
use mathlib.Core.Path.{subst, sym, ap, ◌∙◌}
use coco_os.MsgQueue.{set_queue}
use coco_os.Base.Arrays.{update}
use native.Mathlib.Decide.{ℕ_discrete}
use coco_os.Base.Tests.{ltb, ◌==◌, if◌then◌else◌, lt→ltb, Bool-cases}
use coco_os.Base.Outcome.{ok, Returns, Returns_bind, Returns_mono}
use coco_os.Config.{Config, total_events, event_queue_size}
use coco_os.MsgQueue.{OsQueue, next_slot}
use coco_os.MsgQueue.Span.{next, gap, mod-next, IsQueue}
use coco_os.System.{Os}
use coco_os.System.Signals.{event_isr_signal}
use coco_os.System.Signals.Isr.{event_isr_signal_lem}
use coco_os.System.Messages.{tick_message, tick_from, os_msg_q_tick}
use coco_os.System.Messages.Aging.{
  Aged, aged, between, none_behind, first_behind, others_behind, gap_shrinks, gap_le,
}

module _ (cfg : Config) (queue change : ℕ) (known : change < total_events cfg)
    (fits : change / 8 < event_queue_size cfg) where
  abbrev q_of : Os → OsQueue
  q_of os = (os.queues.msg_q_list queue).q

  -- What the rounds keep.
  abbrev Kept : Os → Type 0
  Kept os = ((os.queues.msg_q_list queue).change ≡ change) × (os.tasks.n_tasks ≤ cfg.max_tasks)

  abbrev AgedAt : OsQueue → ℕ → OsQueue → Type 0
  AgedAt q p q' =
      (q'.size ≡ q.size)
      × (q'.head ≡ q.head)
      × (q'.tail ≡ q.tail)
      × (q'.message_size ≡ q.message_size)
      × ((i : ℕ) → q'.list i ≡ (if i == p then aged (q.list i) else q.list i))

  -- The message of the slot, with one tick less to wait.
  abbrev stepped : ℕ → Os → Os
  stepped p os =
      let q = q_of os in
      let m = q.list p in
      record os {
        queues =
            set_queue queue (record q { list = update q.list p (record m { delay = m.delay - 1 }) })
              os.queues;
      }

  stepped_lem :
      (p : ℕ) (os : Os)
      → Kept os
      → ltb 0 ((q_of os).list p).delay ≡ true
      → Kept (stepped p os) × AgedAt (q_of os) p (q_of (stepped p os))
  stepped_lem p os k more = ground arith

  tick_message_lem :
      (p : ℕ) (os : Os)
      → Kept os
      → p < (q_of os).size
      → Returns (tick_message cfg queue p os) (λ os'. Kept os' × AgedAt (q_of os) p (q_of os'))
  unfolding tick_message
  tick_message_lem p os k hp = elim (Bool-cases (ltb 0 ((q_of os).list p).delay)) [
    | inr now ↦ rw (lt→ltb _ _ hp, now) (k, (refl, refl, refl, refl, λ i. ground (arith, now)))
    | inl more ↦
        rw (lt→ltb _ _ hp, more)
          (elim (Bool-cases (((q_of os).list p).delay - 1 == 0)) [
            | inr later ↦ rw later (stepped_lem p os k more)
            | inl due ↦ rw due (
                subst
                  (λ c.
                    Returns (event_isr_signal cfg c (stepped p os))
                      (λ os'. Kept os' × AgedAt (q_of os) p (q_of os')))
                  (sym k.0)
                  (Returns_mono (event_isr_signal cfg change (stepped p os)) _ _
                    (event_isr_signal_lem cfg change known fits (stepped p os) k.1)
                    (λ os' h.
                      let g = stepped_lem p os k more in
                      (
                        (
                          ap (λ qs. (qs.msg_q_list queue).change) h.0 ∙ g.0.0,
                          omega (arith, h.1, k.1),
                        ),
                        subst (λ qs. AgedAt (q_of os) p (qs.msg_q_list queue).q) (sym h.0) g.1,
                      ))))
          ])
  ]

  Aged-step :
      (q : OsQueue) (t : ℕ) (q₁ q₂ : OsQueue)
      → t < q.size
      → q.head < q.size
      → next q.size t ≢ q.head
      → AgedAt q (next q.size t) q₁
      → Aged q₁ (next q.size t) q₂
      → Aged q t q₂
  Aged-step q t q₁ q₂ ht hh ne a b = (
    b.0 ∙ a.0,
    b.1 ∙ a.1,
    b.2 ∙ a.2,
    b.3 ∙ a.3,
    λ i hi. elim (ℕ_discrete i (next q.size t)) [
      | yes e ↦ ground (arith, a.4 i, b.4 i, first_behind q.size t q.head ht hh ne)
      | no ni ↦ ground (arith, a.4 i, b.4 i, others_behind q.size t q.head i ht hh hi ne ni)
    ],
  )

  -- The rounds from the slot behind `t` on.
  tick_from_lem :
      (fuel t : ℕ) (os : Os)
      → Kept os
      → t < (q_of os).size
      → (q_of os).head < (q_of os).size
      → gap (q_of os).size t (q_of os).head < fuel
      → Returns
          (tick_from cfg fuel queue (q_of os).head (next (q_of os).size t) os)
          (λ os'. Kept os' × Aged (q_of os) t (q_of os'))
  unfolding tick_from
  tick_from_lem zero t os k ht hh enough = absurd (omega arith)
  tick_from_lem (suc fuel) t os k ht hh enough =
      let size = (q_of os).size in
      let head = (q_of os).head in
      let p = next size t in
      let hp : p < size = ground arith in
      elim (Bool-cases (p == head)) [
        | inl last ↦ rw last (
          k,
          (
            refl,
            refl,
            refl,
            refl,
            λ i hi.
                let none : between t head i ≡ false =
                  subst (λ h. between t h i ≡ false) (ground (arith, last))
                    (none_behind size t i ht hi) in
                rw none refl,
          ),
        )
        | inr more ↦
            let ne : p ≢ head = ground arith in
            rw more (
              Returns_bind (tick_message cfg queue p os) _ _ _ (tick_message_lem p os k hp) (λ s a.
                let slot : next_slot (q_of s) p ≡ ok (next (q_of s).size p) =
                  ground (arith, mod-next (q_of s).size p, a.1.0) in
                rw slot (
                  subst
                    (λ h.
                      Returns (tick_from cfg fuel queue h (next (q_of s).size p) s)
                        (λ os'. Kept os' × Aged (q_of os) t (q_of os')))
                    a.1.1
                    (Returns_mono (tick_from cfg fuel queue (q_of s).head (next (q_of s).size p) s)
                      (λ os'. Kept os' × Aged (q_of s) p (q_of os'))
                      (λ os'. Kept os' × Aged (q_of os) t (q_of os'))
                      (tick_from_lem fuel p s a.0 (omega (arith, a.1.0))
                        (omega (arith, a.1.0, a.1.1))
                        (omega (
                          arith,
                          subst (λ n. gap n p (q_of s).head < gap size t head) (sym a.1.0)
                              (subst (λ h. gap size p h < gap size t head) (sym a.1.1)
                                (gap_shrinks size t head ht hh ne)),
                        )))
                      (λ os' r.
                        (r.0, Aged-step (q_of os) t (q_of s) (q_of os') ht hh ne a.1 r.1))))))
      ]

  -- A tick of a valid queue, with two slots or more, in the list of queues, where the table has
  -- room for its tasks, the event of the queue is configured and has its bit in the wait queues,
  -- returns. Each message of the queue that is delayed has one tick less to wait, and no other slot
  -- has changed, nor have the ends of the queue and its size.
  pub os_msg_q_tick_lem :
      (os : Os)
      → queue < cfg.max_queues
      → (os.queues.msg_q_list queue).change ≡ change
      → os.tasks.n_tasks ≤ cfg.max_tasks
      → IsQueue (q_of os)
      → Returns (os_msg_q_tick cfg queue os) (λ os'. Aged (q_of os) (q_of os).tail (q_of os'))
  unfolding os_msg_q_tick
  os_msg_q_tick_lem os hq c le v =
      let q = q_of os in
      let some : (cfg.max_queues == 0) ≡ false = ground arith in
      let slot : next_slot q q.tail ≡ ok (next q.size q.tail) =
        ground (arith, mod-next q.size q.tail, v.slots, v.tail_in) in
      rw (some, lt→ltb _ _ hq, slot)
        (Returns_mono (tick_from cfg (q.size + 1) queue q.head (next q.size q.tail) os)
          (λ os'. Kept os' × Aged q q.tail (q_of os')) (λ os'. Aged q q.tail (q_of os'))
          (tick_from_lem (q.size + 1) q.tail os (c, le) v.tail_in v.head_in
            (gap_le q.size q.tail q.head v.tail_in v.head_in))
          (λ os' r. r.1))
