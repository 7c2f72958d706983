-- ===== src/Sem/Creation.antt =====
-- os_sem/src/os_sem.c: creating semaphores one after the other.
use coco_os.Base.{◌%◌, ℕ, ◌+◌, ◌≤◌, ◌<◌, ◌≡◌, ◌⊎◌, refl, arith, inl, inr, List, [], ◌∷◌, ◌∙◌, ap}
use coco_os.Base.Arrays.{update, update_self, update_ne}
use coco_os.Base.Lists.{length, count_from}
use coco_os.Base.Outcome.{Result, ok, halt, assertion, ◌>>=◌, Returns, Returns_bind}
use native.Mathlib.Decide.{dec_lt}
use coco_os.Config.{Config, total_semaphores}
use coco_os.Sem.{SemValue, Sems, os_sem_create}

-- The semaphores from `n` on have these maxima and values, cut to a byte.
abbrev pub HasSpecs : ℕ → List (ℕ × ℕ) → (ℕ → SemValue) → Type 0
HasSpecs n [] list = Unit {0}
HasSpecs n ((max, initial) ∷ specs) list =
    (list n ≡ record { max_value = max % 256; value = initial % 256 }) × HasSpecs (n + 1) specs list

module _ (cfg : Config) where
  -- A call of `os_sem_create` for each maximum and initial value.
  pub sem_creates : List (ℕ × ℕ) → Sems → Result (List ℕ × Sems)
  sem_creates [] ss = ok ([], ss)
  sem_creates ((max, initial) ∷ specs) ss = os_sem_create cfg max initial ss >>= λ (id, ss₁).
      sem_creates specs ss₁ >>= λ (ids, ss₂). ok (id ∷ ids, ss₂)

  abbrev pub AreCreated : List (ℕ × ℕ) → Sems → List ℕ × Sems → Type 0
  AreCreated specs ss (ids, ss') =
      (ids ≡ count_from ss.n_semaphores (length specs))
      × (ss'.n_semaphores ≡ ss.n_semaphores + length specs)
      × HasSpecs ss.n_semaphores specs ss'.sem_list
      × ((j : ℕ) → j < ss.n_semaphores → ss'.sem_list j ≡ ss.sem_list j)

  module _ (some_there : 0 < total_semaphores cfg) (few : total_semaphores cfg < 256) where
    abbrev added : ℕ → ℕ → Sems → Sems
    added max initial ss = record {
      sem_list =
          update ss.sem_list ss.n_semaphores
            (record { max_value = max % 256; value = initial % 256 });
      n_semaphores = ss.n_semaphores + 1;
    }

    create_in_room :
        (max initial : ℕ) (ss : Sems)
        → ss.n_semaphores < total_semaphores cfg
        → os_sem_create cfg max initial ss ≡ ok (ss.n_semaphores, added max initial ss)
    unfolding os_sem_create
    create_in_room max initial ss room = ground arith

    create_full :
        (max initial : ℕ) (ss : Sems)
        → ss.n_semaphores ≡ total_semaphores cfg
        → os_sem_create cfg max initial ss ≡ halt assertion
    unfolding os_sem_create
    create_full max initial ss all = ground arith

    -- In a build with 1 to 255 semaphores and with no more of them created than fit: if those that
    -- are to be created fit the table, each call returns the next id, and in the end each new
    -- semaphore has its maximum and its initial value, each cut to a byte, and those that were
    -- there are as they were; and if they do not fit, an assertion fails.
    pub sem_creates_lem :
        (specs : List (ℕ × ℕ)) (ss : Sems)
        → ss.n_semaphores ≤ total_semaphores cfg
        → ((ss.n_semaphores + length specs ≤ total_semaphores cfg)
            × Returns (sem_creates specs ss) (AreCreated specs ss))
          ⊎ ((total_semaphores cfg < ss.n_semaphores + length specs)
              × (sem_creates specs ss ≡ halt assertion))
    unfolding sem_creates count_from
    sem_creates_lem [] ss le = inl (omega arith, (refl, omega arith, tt, λ j hj. refl))
    sem_creates_lem ((max, initial) ∷ specs) ss le =
        elim (dec_lt ss.n_semaphores (total_semaphores cfg)) [
          | no all ↦ inr (omega arith, rw (create_full max initial ss (omega arith)) refl)
          | yes room ↦ elim (sem_creates_lem specs (added max initial ss) (omega arith)) [
            | inr (over, e) ↦ inr (omega arith, rw (create_in_room max initial ss room, e) refl)
            | inl (fit, h) ↦ inl (
              omega arith,
              rw (create_in_room max initial ss room) (
                  Returns_bind (sem_creates specs (added max initial ss)) _ _ _ h (λ (ids, ss₂) k. (
                    ap (λ l. ss.n_semaphores ∷ l) k.0,
                    omega (arith, k.1),
                    (
                      k.3 ss.n_semaphores (omega arith) ∙ update_self ss.sem_list ss.n_semaphores _,
                      k.2,
                    ),
                    λ j hj.
                        k.3 j (omega arith)
                        ∙ update_ne ss.sem_list ss.n_semaphores j _ (omega arith),
                  ))),
            )
          ]
        ]
