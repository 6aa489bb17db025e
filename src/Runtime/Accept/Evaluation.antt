-- ===== src/Runtime/Accept/Evaluation.antt =====
-- internal/watchrun/app.go: the loop of `acceptPush` over the observations of an input.
use ding.Base.{
  ℕ, String, true, false, ◌&&◌, ◌||◌, List, [], ◌∷◌, Option, none, some, if◌then◌else◌, Result, ok,
  err, ◌>>=◌,
}
use ding.Watch.{Observation, Event, is_healthy, is_unchanged}
use ding.Condition.Model.{State}
use ding.Condition.Evaluate.{evaluate}
use ding.Condition.Emit.{is_set}
use ding.Condition.Routing.{source_entity, source_recovered_event}
use ding.Runtime.Tables.{Plan, Checkpoint, save_timer}
use ding.Runtime.Cache.{Work, load, route_cached, admit, saved, delete_loaded}
use ding.Runtime.Emission.{App, append_evaluated}

-- The state of an entity that has none.
abbrev pub empty_state : {F : Type 0} → String → State F
empty_state key = record {
  waiting_reason = "";
  baseline_sequence = 0;
  incident_event = "";
  health_event = "";
  fresh_sequence = 0;
  missing_at = 0;
  entity = key;
  is_open = false;
  matches = 0;
  recoveries = 0;
  last_at = 0;
  last_fired = 0;
  last_sequence = 0;
  source_unhealthy = false;
  samples = [];
  overflow_until = 0;
  clock_window_until = 0;
  evidence = [];
  baseline = "";
  seen = [];
}

module _ {F : Type 0} (app : App F) (plan : Plan F) (now : ℕ) where
  unfoldable pub record_event : Event F → Checkpoint F → Work F → Result (Work F)
  unfolding append_evaluated
  record_event e c (cache, db) =
      append_evaluated app db.watch e now c db >>= (λ db'. ok (cache, db'))

  -- The loop over the events of a transition.
  unfoldable pub record_all : List (Event F) → Checkpoint F → Work F → Result (Work F)
  unfolding record_event
  record_all [] c w = ok w
  record_all (e ∷ es) c w = record_event e c w >>= (λ w'. record_all es c w')

  unfoldable pub recovered : Observation F → State F → Work F → Result (Work F)
  unfolding record_event
  recovered o bootstrap w =
      if bootstrap.source_unhealthy
      then record_event (source_recovered_event app.runtime plan.evaluator o)
          record { prior = bootstrap; input = o; recovery = true } w
      else ok w

  -- The branch of `clearSource`. There is no state to decode where nothing was loaded.
  unfoldable pub clear_source : Observation F → Work F → Result (Work F)
  unfolding recovered load delete_loaded
  clear_source o w =
      let (found, w') = load source_entity w in
      elim found [
        | none ↦ err "unexpected end of JSON input"
        | some bootstrap ↦ recovered o bootstrap (delete_loaded source_entity w')
      ]

  -- A missing-data condition waits anew after fresh data.
  unfoldable pub armed : Observation F → String → State F → Work F → Work F
  armed o key s (cache, db) =
      if is_set plan.evaluator.missing_for && (is_healthy o.health || is_unchanged o.health)
      then (
        cache,
        save_timer key record { generation = db.watch.generation; due = s.missing_at } db,
      )
      else (cache, db)

  unfoldable pub store_state : String → State F → Work F → Result (Work F)
  unfolding saved
  store_state key s w = elim (app.stored_state s) [
    | none ↦ err "json"
    | some t ↦ ok (saved key t w)
  ]

  -- The transition of one entity.
  unfoldable pub commit : Observation F → String → State F → Work F → Result (Work F)
  unfolding armed store_state record_all
  commit o key s w = do
    t ← evaluate app.runtime plan.evaluator o now s
    w' ← store_state key t.state (armed o key t.state w)
    record_all t.events record { prior = s; input = o; recovery = false } w'

  unfoldable pub state_of : String → Option (State F) → State F
  state_of key none = empty_state key
  state_of key (some s) = s

  -- One key that an observation concerns.
  unfoldable pub evaluate_key : Observation F → String → Work F → Result (Work F)
  unfolding admit commit state_of
  evaluate_key o key w = do
    (found, w') ← admit plan.max_entities key w
    commit o key (state_of key found) w'

  unfoldable pub evaluate_keys : Observation F → List String → Work F → Result (Work F)
  unfolding evaluate_key
  evaluate_keys o [] w = ok w
  evaluate_keys o (k ∷ ks) w = evaluate_key o k w >>= (λ w'. evaluate_keys o ks w')

  unfoldable pub evaluate_one : Observation F → Work F → Result (Work F)
  unfolding route_cached clear_source evaluate_keys
  evaluate_one o w = do
    ((ks, clear), w1) ← route_cached app.runtime plan.evaluator o w
    w2 ← if clear then clear_source o w1 else ok w1
    evaluate_keys o ks w2

  -- The loop over the observations.
  unfoldable pub evaluate_all : List (Observation F) → Work F → Result (Work F)
  unfolding evaluate_one
  evaluate_all [] w = ok w
  evaluate_all (o ∷ os) w = evaluate_one o w >>= (λ w'. evaluate_all os w')
