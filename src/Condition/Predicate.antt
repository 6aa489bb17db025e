-- ===== src/Condition/Predicate.antt =====
-- internal/condition/transition.go `predicate`: which condition is evaluated, and the one for
-- missing data.
use ding.Base.{ℕ, ◌+◌, false, Option, none, some, leb, ◌==◌, if◌then◌else◌}
use ding.Watch.{Value, lookup, Observation, is_timer}
use ding.Condition.Model.{changed, new_event, State, Evaluator, Runtime}
use ding.Condition.Compare.{Verdict, unknown, known, compare_value}
use ding.Condition.Windowed.{predicate_numeric}
use ding.Condition.Signals.{signal_changed, signal_event}

deadline_verdict : Option ℕ → ℕ → ℕ → Verdict
deadline_verdict none missing_at now = known (leb missing_at now)
deadline_verdict (some t) missing_at now =
    if missing_at == t then known (leb missing_at now) else unknown "stale_deadline"

module _ {F : Type 0} where
  missing_timer : State F → Option ℕ → ℕ → State F × Verdict
  unfolding deadline_verdict
  missing_timer s deadline now =
      let at =
        if s.missing_at == 0
        then elim deadline [ none ↦ s.missing_at | some t ↦ t ]
        else s.missing_at in
      (
        record s { missing_at = at },
        if at == 0 then unknown "missing_deadline" else deadline_verdict deadline at now,
      )

  -- The branch of `predicate` for a missing-data condition.
  unfoldable pub predicate_missing : ℕ → State F → Observation F → ℕ → State F × Verdict
  unfolding missing_timer
  predicate_missing window s o now =
      if is_timer o.health
      then missing_timer s o.deadline now
      else (record s { missing_at = now + window; fresh_sequence = o.sequence }, known false)

module _ {F : Type 0} (rt : Runtime F) where
  unfoldable pub predicate_typed : Evaluator F → State F → Value F → ℕ → ℕ → State F × Verdict
  unfolding predicate_numeric
  predicate_typed ev s v sequence now = elim ev.expression [
    | none ↦ (s, compare_value rt.floats v ev.operator ev.value)
    | some e ↦ predicate_numeric rt ev e s v sequence now
  ]

  unfoldable pub predicate_value : Evaluator F → State F → Value F → ℕ → ℕ → State F × Verdict
  unfolding predicate_typed
  predicate_value ev s v sequence now = elim ev.operator [
    | changed ↦ signal_changed rt s v sequence
    | new_event ↦ signal_event ev s v now
    | _ ↦ predicate_typed ev s v sequence now
  ]

  unfoldable pub predicate : Evaluator F → State F → Observation F → ℕ → State F × Verdict
  unfolding predicate_value
  predicate ev s o now = elim ev.missing_for [
    | some window ↦ predicate_missing window s o now
    | none ↦ elim (lookup ev.field o.fields) [
      | none ↦ (s, unknown "missing_field")
      | some v ↦ predicate_value ev s v o.sequence now
    ]
  ]
