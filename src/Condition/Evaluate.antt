-- ===== src/Condition/Evaluate.antt =====
-- internal/condition/transition.go `Evaluate`: the observation is checked, its health decides the
-- branch, and what is left reaches the predicate and the policy.
pub mod Rule
pub mod Total
pub mod Clock
use ding.Base.{
  ℕ, ◌+◌, String, Bool, true, false, not, ◌&&◌, ◌||◌, none, some, List, [], ◌∷◌, ltb, leb, ◌==◌,
  if◌then◌else◌, Result, ok, err, ◌>>=◌, str_eq,
}
use ding.Watch.{
  Fields, end, field, lookup, Observation, sampling_gap, unchanged, gap, clock, waiting, is_healthy,
  is_timer, is_unchanged, entity_key, detail_or_default,
}
use ding.Condition.Model.{State, Transition, Evaluator, Runtime, eq, new_event}
use ding.Condition.Compare.{unknown, known, compare_value}
use ding.Condition.Signals.{live}
use ding.Condition.Predicate.{predicate}
use ding.Condition.Policy.{Step, broken, unknown_step, emit_step, recover_source, known_step}

-- The expiries after a clock discontinuity: those that were live restart.
renew_all : ℕ → List (String × ℕ) → List (String × ℕ)
renew_all t [] = []
renew_all t ((k, _) ∷ rest) = (k, t) ∷ renew_all t rest

module _ {F : Type 0} where
  clock_windows : Evaluator F → State F → ℕ → State F
  clock_windows ev s now = record s {
    samples = [];
    overflow_until = 0;
    clock_window_until = if ltb 0 ev.max_window then now + ev.max_window else s.clock_window_until;
    last_fired = if s.last_fired == 0 then 0 else now;
  }

  clock_deadlines : Evaluator F → State F → ℕ → State F
  unfolding renew_all
  clock_deadlines ev s now = elim ev.missing_for [
    | some window ↦ record s { missing_at = now + window; fresh_sequence = 0 }
    | none ↦ elim ev.operator [
      | new_event ↦ record s { seen = renew_all (now + ev.dedup_for) (live s.last_at s.seen) }
      | _ ↦ s
    ]
  ]

  -- A detected discontinuity starts a new time baseline.
  unfoldable pub clock_state : Evaluator F → State F → ℕ → State F
  unfolding clock_windows clock_deadlines
  clock_state ev s now =
      let t = clock_deadlines ev (clock_windows ev s now) now in record t { last_at = now }

module _ {F : Type 0} (rt : Runtime F) where
  -- Every required field is present and known to be equal.
  unfoldable pub matches_all : Fields F → Fields F → Bool
  matches_all end fields = true
  matches_all (field k want rest) fields =
      elim (lookup k fields) [
        | none ↦ false
        | some v ↦ elim (compare_value rt.floats v eq want) [ known b ↦ b | unknown _ ↦ false ]
      ]
      && matches_all rest fields

module _ {F : Type 0} (rt : Runtime F) (ev : Evaluator F) (o : Observation F) (now : ℕ) where
  quiet : String → Step F → Transition F
  quiet reason (s, events) = record {
    state = record s { last_at = now; last_sequence = o.sequence };
    events = events;
    known = false;
    matched = false;
    reason = reason;
  }

  emit_gap : State F → Result (Step F)
  emit_gap s = emit_step rt ev o now sampling_gap "sampling_gap" (λ t. t) (s, [])

  gap_step : State F → Result (Transition F)
  unfolding quiet emit_gap
  gap_step s = do
    st ← emit_gap (record (broken s) { last_at = now; last_sequence = o.sequence })
    ok (quiet "sampling_gap" st)

  waits_for_missing : Bool
  waits_for_missing = elim ev.missing_for [ none ↦ false | some _ ↦ true ]

  -- Too long a pause breaks the streaks, and is reported.
  elapsed : State F → Result (Step F)
  unfolding waits_for_missing emit_gap
  elapsed s =
      if not waits_for_missing
        && (ltb 0 s.last_at && (ltb 0 ev.max_gap && ltb (s.last_at + ev.max_gap) now))
      then emit_gap (broken s)
      else ok (s, [])

  waiting_step : Step F → Result (Transition F)
  unfolding quiet
  waiting_step (s, events) =
      let t = record (broken s) {
        waiting_reason = detail_or_default o;
        last_at = now;
        last_sequence = o.sequence;
      } in
      do
        st ←
            if t.source_unhealthy && not (str_eq o.detail "collection_ended")
            then recover_source rt ev o now (t, events)
            else ok (t, events)
        ok (quiet (detail_or_default o) st)

  decide : Step F → Result (Transition F)
  decide (s, events) =
      let (t, verdict) = predicate rt ev s o now in
      elim verdict [
        | unknown reason ↦ unknown_step rt ev o now reason (t, events)
        | known matched ↦ known_step rt ev o now matched (t, events)
      ]

  filtered : Bool
  filtered =
      not (is_timer o.health || is_unchanged o.health) && not (matches_all rt ev.match o.fields)

  -- An observation that is not `ok` counts only for a missing-data condition.
  uncounted : Bool
  unfolding waits_for_missing
  uncounted =
      not (is_healthy o.health)
      && not (waits_for_missing && (is_timer o.health || is_unchanged o.health))

  filter_step : Step F → Result (Transition F)
  unfolding decide filtered quiet
  filter_step st = if filtered then ok (quiet "filtered" st) else decide st

  sampled : Step F → Result (Transition F)
  unfolding uncounted filter_step
  sampled st =
      if uncounted then unknown_step rt ev o now (detail_or_default o) st else filter_step st

  in_order : Step F → Result (Transition F)
  unfolding waits_for_missing waiting_step sampled quiet
  in_order st = elim o.health [
    | unchanged ↦ if waits_for_missing then sampled st else ok (quiet "unchanged" st)
    | waiting ↦ if waits_for_missing then sampled st else waiting_step st
    | _ ↦ sampled st
  ]

  forward : State F → Result (Transition F)
  unfolding gap_step elapsed in_order
  forward s = elim o.health [ gap ↦ gap_step s | _ ↦ elapsed s >>= in_order ]

  -- `Evaluate` from the point where the entity is known.
  unfoldable pub observe : State F → Result (Transition F)
  unfolding forward
  observe s = elim o.health [
    | clock ↦ unknown_step rt ev o now "clock_discontinuity" (clock_state ev s now, [])
    | _ ↦
        if ltb 0 s.last_at && ltb now s.last_at
        then unknown_step rt ev o now "clock_moved_backwards" (s, [])
        else forward s
  ]

  -- The key of the observation; a timer names its entity.
  unfoldable pub observed_key : Result String
  observed_key = do
    key ← entity_key rt.encode_parts ev.group_by o.fields
    ok (if is_timer o.health && not (str_eq o.entity "") then o.entity else key)

  unfoldable pub chosen_entity : State F → String → Result String
  chosen_entity s key =
      if str_eq s.entity ""
      then ok key
      else if is_healthy o.health && not (str_eq s.entity key)
      then err "observation belongs to another entity"
      else ok s.entity

  unfoldable pub evaluate : State F → Result (Transition F)
  unfolding observed_key chosen_entity
  evaluate s =
      if (now == 0) || ((o.sequence == 0) || not (now == o.accepted_at))
      then err "accepted time and positive sequence are required"
      else if leb o.sequence s.last_sequence
      then err "observation sequence must increase"
      else do
        key ← observed_key
        entity ← chosen_entity s key
        observe (record s { waiting_reason = ""; entity = entity })
