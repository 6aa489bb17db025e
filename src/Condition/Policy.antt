-- ===== src/Condition/Policy.antt =====
-- internal/condition/transition.go `Evaluate`: what a known outcome does to the incident or signal
-- of an entity, and `unknown`. A step carries the state and the events emitted so far.
pub mod Rule
use ding.Base.{
  ℕ, ◌+◌, String, Bool, true, false, not, ◌&&◌, ◌||◌, List, [], ◌∷◌, ◌++◌, ltb, leb, ◌==◌,
  if◌then◌else◌, Result, ok, ◌>>=◌,
}
use ding.Watch.{
  Observation, Kind, firing, recovered, source_error, source_recovered, Event, is_timer,
}
use ding.Condition.Model.{State, Transition, Evaluator, Runtime, Operator}
use ding.Condition.Compare.{is_signal}
use ding.Condition.Emit.{emit, event_id}

abbrev pub Step : Type 0 → Type 0
Step F = State F × List (Event F)

-- Both streaks end.
abbrev pub broken : {F : Type 0} → State F → State F
broken s = record s { matches = 0; recoveries = 0; evidence = [] }

abbrev pub healed : {F : Type 0} → State F → State F
healed s = record s { source_unhealthy = false; health_event = "" }

module _ {F : Type 0} (rt : Runtime F) (ev : Evaluator F) (o : Observation F) (now : ℕ) where
  -- The cooldown has passed.
  unfoldable pub is_due : State F → Bool
  is_due s = (s.last_fired == 0) || leb (s.last_fired + ev.interval) now

  unfoldable pub emit_step : Kind → String → (State F → State F) → Step F → Result (Step F)
  emit_step kind reason update (s, events) = do
    e ← emit rt ev o now kind reason s
    ok (update s, events ++ (e ∷ []))

  unfoldable pub recover_source : Step F → Result (Step F)
  unfolding emit_step
  recover_source = emit_step source_recovered "source_recovered" healed

  abbrev pub failed : State F → State F
  failed s = record s { source_unhealthy = true; health_event = event_id rt ev o source_error s }

  fail_source : String → Step F → Result (Step F)
  unfolding emit_step
  fail_source reason = emit_step source_error reason failed

  unknown_outcome : String → Step F → Transition F
  unknown_outcome reason (s, events) = record {
    state = record s {
      last_sequence = o.sequence;
      last_at = if ltb s.last_at now then now else s.last_at;
    };
    events = events;
    known = false;
    matched = false;
    reason = reason;
  }

  -- The closure `unknown`.
  unfoldable pub unknown_step : String → Step F → Result (Transition F)
  unfolding unknown_outcome fail_source
  unknown_step reason (s, events) = do
    st ← if s.source_unhealthy then ok (broken s, events) else fail_source reason (broken s, events)
    ok (unknown_outcome reason st)

  unfoldable pub signal_kind : Operator → Kind
  signal_kind Operator.changed = Kind.changed
  signal_kind _ = Kind.new_event

  unfoldable pub signal_reason : Operator → String
  signal_reason Operator.changed = "condition_changed"
  signal_reason _ = "condition_new-event"

  unfoldable pub clear_evidence : Step F → Step F
  clear_evidence (s, events) = (record s { evidence = [] }, events)

  -- A change or a new event fires when it is due, and never opens an incident.
  unfoldable pub signal_step : Bool → Step F → Result (Step F)
  unfolding signal_kind signal_reason clear_evidence emit_step
  signal_step matched (s, events) = do
    st ←
        if matched && is_due s
        then emit_step (signal_kind ev.operator) (signal_reason ev.operator)
            (λ t. record t { last_fired = now }) (s, events)
        else ok (s, events)
    ok (clear_evidence st)

  unfoldable pub count_match : State F → State F
  count_match s =
      if ltb s.matches ev.consecutive
      then record s {
        recoveries = 0;
        matches = s.matches + 1;
        evidence = s.evidence ++ (o.sequence ∷ []);
      }
      else record s { recoveries = 0 }

  unfoldable pub eligible : State F → Bool
  unfolding is_due
  eligible s = if ev.is_level then is_due s else not s.is_open

  unfoldable pub opened : Step F → Step F
  opened (s, events) = (record s { is_open = true }, events)

  unfoldable pub fired : State F → State F
  fired s = record s { last_fired = now; incident_event = event_id rt ev o firing s }

  unfoldable pub fire_step : Step F → Result (Step F)
  unfolding eligible emit_step fired
  fire_step (s, events) =
      if eligible s then emit_step firing "condition_matched" fired (s, events) else ok (s, events)

  unfoldable pub matched_step : Step F → Result (Step F)
  unfolding count_match fire_step opened
  matched_step (s, events) =
      let t = count_match s in
      if leb ev.consecutive t.matches
      then fire_step (t, events) >>= (λ st. ok (opened st))
      else ok (t, events)

  unfoldable pub count_recovery : State F → State F
  count_recovery s = record s {
    matches = 0;
    recoveries = s.recoveries + 1;
    evidence = (if s.recoveries == 0 then [] else s.evidence) ++ (o.sequence ∷ []);
  }

  unfoldable pub closed : State F → State F
  closed s = record s { is_open = false; incident_event = ""; recoveries = 0; evidence = [] }

  unfoldable pub unmatched_step : Step F → Result (Step F)
  unfolding count_recovery closed emit_step
  unmatched_step (s, events) =
      let t = count_recovery s in
      if s.is_open
      then if leb ev.recover_after t.recoveries
        then emit_step recovered "condition_recovered" closed (t, events)
        else ok (t, events)
      else ok (broken s, events)

  unfoldable pub incident_step : Bool → Step F → Result (Step F)
  unfolding matched_step unmatched_step
  incident_step true = matched_step
  incident_step false = unmatched_step

  unfoldable pub policy_step : Bool → Step F → Result (Step F)
  unfolding signal_step incident_step
  policy_step matched st =
      if is_signal ev.operator then signal_step matched st else incident_step matched st

  known_outcome : Bool → Step F → Transition F
  known_outcome matched (s, events) = record {
    state = record s { last_at = now; last_sequence = o.sequence };
    events = events;
    known = true;
    matched = matched;
    reason = "";
  }

  -- What follows a predicate that is known.
  unfoldable pub known_step : Bool → Step F → Result (Transition F)
  unfolding known_outcome recover_source policy_step
  known_step matched (s, events) = do
    st ←
        if s.source_unhealthy && not (is_timer o.health)
        then recover_source (s, events)
        else ok (s, events)
    st' ← policy_step matched st
    ok (known_outcome matched st')
