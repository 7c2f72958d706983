-- ===== src/Event/Creation.antt =====
-- os_event/src/os_event.c: creating events one after the other.
use coco_os.Base.{
  ℕ, zero, suc, ◌+◌, ◌≤◌, ◌<◌, ◌≡◌, ◌⊎◌, refl, arith, inl, inr, List, [], ◌∷◌, ◌∙◌, ap,
}
use coco_os.Base.Arrays.{update, update_self, update_ne}
use coco_os.Base.Lists.{count_from}
use coco_os.Base.Outcome.{Result, ok, halt, assertion, ◌>>=◌, Returns, Returns_bind}
use native.Mathlib.Decide.{dec_lt}
use coco_os.Config.{Config, total_events, no_tid}
use coco_os.Event.{Event, Events, event_create}

module _ (cfg : Config) where
  -- Calls of `event_create`, so many.
  pub event_creates : ℕ → Events → Result (List ℕ × Events)
  event_creates zero es = ok ([], es)
  event_creates (suc k) es =
      event_create cfg es >>= λ (id, es₁). event_creates k es₁ >>= λ (ids, es₂). ok (id ∷ ids, es₂)

  -- The event carries its index as its id, and no task has signaled it.
  abbrev IsNew : ℕ → Event → Type 0
  IsNew j e = e ≡ record { id = j; signaled_by_tid = no_tid }

  abbrev pub AreNew : ℕ → Events → List ℕ × Events → Type 0
  AreNew k es (ids, es') =
      (ids ≡ count_from es.n_events k)
      × (es'.n_events ≡ es.n_events + k)
      × ((j : ℕ) → es.n_events ≤ j → j < es.n_events + k → IsNew j (es'.event_list j))
      × ((j : ℕ) → j < es.n_events → es'.event_list j ≡ es.event_list j)
      × (es'.last_signaled_event ≡ es.last_signaled_event)

  module _ (some_there : 0 < total_events cfg) (few : total_events cfg < 256) where
    abbrev added : Events → Events
    added es = record es {
      event_list =
          update es.event_list es.n_events (record { id = es.n_events; signaled_by_tid = no_tid });
      n_events = es.n_events + 1;
    }

    create_in_room :
        (es : Events)
        → es.n_events < total_events cfg
        → event_create cfg es ≡ ok (es.n_events, added es)
    unfolding event_create
    create_in_room es room = ground arith

    create_full :
        (es : Events) → es.n_events ≡ total_events cfg → event_create cfg es ≡ halt assertion
    unfolding event_create
    create_full es all = ground arith

    -- The first event, and those created after it.
    grown :
        (k : ℕ) (es : Events) (r : List ℕ × Events)
        → AreNew k (added es) r
        → AreNew (suc k) es (es.n_events ∷ r.0, r.1)
    unfolding count_from
    grown k es (ids, es₂) (i, n, new, old, last) = (
      ap (λ l. es.n_events ∷ l) i,
      omega (arith, n),
      λ j h l. elim (dec_lt es.n_events j) [
        | yes later ↦ new j (omega arith) (omega arith)
        | no first ↦
            let here : j ≡ es.n_events = omega arith in
            rw here (old es.n_events (omega arith) ∙ update_self es.event_list es.n_events _)
      ],
      λ j hj. old j (omega arith) ∙ update_ne es.event_list es.n_events j _ (omega arith),
      last,
    )

    -- In a build with 1 to 255 events: if those that are to be created fit the table, each call
    -- returns the next id, and in the end each new event has its index for an id and nobody who
    -- signaled it, and those that were there are as they were; and if they do not fit, an assertion
    -- fails.
    pub event_creates_lem :
        (k : ℕ) (es : Events)
        → es.n_events ≤ total_events cfg
        → ((es.n_events + k ≤ total_events cfg) × Returns (event_creates k es) (AreNew k es))
          ⊎ ((total_events cfg < es.n_events + k) × (event_creates k es ≡ halt assertion))
    unfolding event_creates count_from
    event_creates_lem zero es le =
        inl (omega arith, (refl, omega arith, λ j h l. absurd (omega arith), λ j hj. refl, refl))
    event_creates_lem (suc k) es le = elim (dec_lt es.n_events (total_events cfg)) [
      | no all ↦ inr (omega arith, rw (create_full es (omega arith)) refl)
      | yes room ↦ elim (event_creates_lem k (added es) (omega arith)) [
        | inr (over, e) ↦ inr (omega arith, rw (create_in_room es room, e) refl)
        | inl (fit, h) ↦ inl (
          omega arith,
          rw (create_in_room es room)
              (Returns_bind (event_creates k (added es)) _ _ _ h (grown k es)),
        )
      ]
    ]
