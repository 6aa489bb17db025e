-- ===== src/Condition/Invariant.antt =====
-- The well-formedness of an entity's state, and that `Evaluate` keeps it: streaks stay below their
-- thresholds, and what is stored for an entity stays bounded.
use ding.Base.{
  ℕ, ◌+◌, ◌≤◌, ◌<◌, ◌≡◌, String, Bool, true, false, ◌&&◌, List, [], ◌∷◌, ok, leb, arith, length,
  length-append,
}
use ding.Base.Ensures.{Ensures, Ensures-bind, Ensures-if, Ensures-of}
use ding.Watch.{Observation, Kind, firing, recovered, Event}
use ding.Condition.Model.{State, Transition, Evaluator, Runtime}
use ding.Condition.Compare.{is_signal}
use ding.Condition.Emit.{emit}
use ding.Condition.Frame.{Frame, predicate-Frame}
use ding.Condition.Policy.{
  Step, emit_step, policy_step, signal_step, matched_step, unmatched_step, is_due, signal_kind,
  signal_reason, count_match, fire_step, fired, opened, eligible, closed, incident_step,
}
use ding.Condition.Evaluate.{evaluate}
use ding.Condition.Evaluate.Clock.{Shifted, clock_state-Shifted}
use ding.Condition.Evaluate.Rule.{Stable, evaluate_rule}

pub record Inv {F : Type 0} (ev : Evaluator F) (s : State F) : Type 0 where
  pub matches_le : s.matches ≤ ev.consecutive
  pub recoveries_lt : s.recoveries < ev.recover_after
  pub recovering_open : 0 < s.recoveries → s.is_open ≡ true
  pub one_streak : 0 < s.recoveries → s.matches ≡ 0
  pub samples_le : length s.samples ≤ ev.max_samples
  pub seen_le : length s.seen ≤ ev.max_samples
  pub evidence_le : length s.evidence ≤ s.matches + ev.recover_after
  pub recovery_evidence : 0 < s.recoveries → length s.evidence ≤ s.recoveries

module _ {F : Type 0} (rt : Runtime F) (ev : Evaluator F) (o : Observation F) (now : ℕ) where
  -- The invariant on a step: the events do not matter.
  abbrev Good : Step F → Type 0
  Good st = Inv ev st.0

  Frame-Inv : (s : State F) {t : State F} → Frame ev.max_samples s t → Inv ev s → Inv ev t
  Frame-Inv s f h = ground arith

  Shifted-Inv : (s : State F) {t : State F} → Shifted s t → Inv ev s → Inv ev t
  Shifted-Inv s f h = ground arith

  emit_step-Inv :
      (kind : Kind) (reason : String) (update later : State F → State F) (s : State F)
      (es : List (Event F))
      → Inv ev (later (update s))
      → Ensures (λ r. Inv ev (later r.0)) (emit_step rt ev o now kind reason update (s, es))
  unfolding emit_step
  emit_step-Inv kind reason update later s es h =
      Ensures-bind (λ _. Unit) _ (emit rt ev o now kind reason s) _ (Ensures-of _ _ (λ _ _. tt))
        (λ e _. h)

  signal_step-Inv :
      (matched : Bool) (s : State F) (es : List (Event F))
      → Inv ev s
      → Ensures Good (signal_step rt ev o now matched (s, es))
  unfolding signal_step
  signal_step-Inv matched s es h =
      Ensures-bind (λ r. Inv ev (record r.0 { evidence = [] })) Good _ _
        (Ensures-if _ (matched && is_due rt ev o now s) _ _
          (λ _.
            emit_step-Inv (signal_kind rt ev o now ev.operator)
              (signal_reason rt ev o now ev.operator) (λ t. record t { last_fired = now })
              (λ t. record t { evidence = [] }) s es (ground arith))
          (λ _. ground arith))
        (λ _ p. p)

  count_match-Inv : (s : State F) → Inv ev s → Inv ev (count_match rt ev o now s)
  unfolding count_match
  count_match-Inv s h = ground (arith, length-append s.evidence (o.sequence ∷ []))

  fire_step-Inv :
      (s : State F) (es : List (Event F))
      → Inv ev (record s { is_open = true })
      → Ensures (λ r. Inv ev (opened rt ev o now r).0) (fire_step rt ev o now (s, es))
  unfolding fire_step opened
  fire_step-Inv s es h =
      Ensures-if _ (eligible rt ev o now s) _ _
        (λ _.
          emit_step-Inv firing "condition_matched" (fired rt ev o now)
            (λ t. record t { is_open = true }) s es (ground arith))
        (λ _. h)

  opening-Inv : (s : State F) → Inv ev s → Inv ev (record s { is_open = true })
  opening-Inv s h = ground arith

  matched_step-Inv :
      (s : State F) (es : List (Event F))
      → Inv ev s
      → Ensures Good (matched_step rt ev o now (s, es))
  unfolding matched_step
  matched_step-Inv s es h =
      let counted = count_match-Inv s h in
      Ensures-if Good (leb ev.consecutive (count_match rt ev o now s).matches) _ _
        (λ _.
          Ensures-bind (λ r. Inv ev (opened rt ev o now r).0) Good _ _
            (fire_step-Inv (count_match rt ev o now s) es (opening-Inv _ counted)) (λ _ p. p))
        (λ _. counted)

  unmatched_step-Inv :
      (s : State F) (es : List (Event F))
      → Inv ev s
      → Ensures Good (unmatched_step rt ev o now (s, es))
  unfolding unmatched_step
  unmatched_step-Inv s es h =
      Ensures-if Good s.is_open _ _
        (λ p.
          Ensures-if Good (leb ev.recover_after (s.recoveries + 1)) _ _
            (λ _.
              emit_step-Inv recovered "condition_recovered" (closed rt ev o now) (λ t. t) _ es
                (ground arith))
            (λ q. ground (arith, length-append s.evidence (o.sequence ∷ []))))
        (λ _. ground arith)

  policy_step-Inv :
      (matched : Bool) (r : Step F) → Good r → Ensures Good (policy_step rt ev o now matched r)
  unfolding policy_step
  policy_step-Inv matched (s, es) h =
      Ensures-if Good (is_signal ev.operator) (signal_step rt ev o now matched (s, es))
        (incident_step rt ev o now matched (s, es)) (λ _. signal_step-Inv matched s es h)
        (λ _. by_match matched)
    where
      by_match : (m : Bool) → Ensures Good (incident_step rt ev o now m (s, es))
      by_match true = matched_step-Inv s es h
      by_match false = unmatched_step-Inv s es h

  Good-Stable : Stable rt ev o now Good
  Good-Stable = record {
    kept = record {
      breaks = λ s es h. ground arith;
      stamps = λ s es at h. ground arith;
      fails = λ s es reason e q p h. ground arith;
      heals = λ s es e q p h. ground arith;
      applies = policy_step-Inv;
    };
    predicts = λ s es h. Frame-Inv s (predicate-Frame rt ev s o now) h;
    shifts = λ s h. Shifted-Inv s (clock_state-Shifted ev s now) h;
    gaps = λ s es e p h. h;
    waits = λ s es reason h. ground arith;
  }

  -- A successful evaluation of a well-formed state gives a well-formed state: match streaks
  -- stay within the policy, recovery streaks below their threshold and only in an open incident
  -- with no match streak, and samples, known identifiers and evidence within their bounds. It
  -- records the sequence of the observation.
  pub evaluate-Inv :
      (s : State F) (t : Transition F)
      → Inv ev s
      → evaluate rt ev o now s ≡ ok t
      → Inv ev t.state × (t.state.last_sequence ≡ o.sequence)
  evaluate-Inv s t h e = evaluate_rule rt ev o now Good s Good-Stable (λ k. ground arith) e
