-- ===== src/Condition/Events.antt =====
-- Each event that an evaluation emits: whose it is, when, and on what evidence.
use ding.Base.{
  ℕ, ◌≡◌, refl, String, Bool, true, false, ◌&&◌, List, [], ◌∷◌, ◌++◌, ok, leb, arith, All,
  All-append, subst, sym, ◌+◌,
}
use ding.Base.Ensures.{Ensures, Ensures-bind, Ensures-if, Ensures-of}
use ding.Watch.{
  Observation, Kind, firing, recovered, source_error, source_recovered, sampling_gap, Event,
}
use ding.Condition.Model.{State, Transition, Evaluator, Runtime}
use ding.Condition.Compare.{is_signal}
use ding.Condition.Emit.{emit, event_id, contains}
use ding.Condition.Emit.Evidence.{Ascending, evidence_of-Ascending, evidence_of-contains}
use ding.Condition.Frame.{predicate-Frame}
use ding.Condition.Predicate.{predicate}
use ding.Condition.Policy.{
  Step, healed, failed, emit_step, policy_step, signal_step, matched_step, unmatched_step, is_due,
  signal_kind, signal_reason, count_match, fire_step, fired, opened, eligible, closed,
  incident_step,
}
use ding.Condition.Evaluate.{evaluate}
use ding.Condition.Evaluate.Rule.{Stable, evaluate_rule}

module _ {F : Type 0} (rt : Runtime F) (ev : Evaluator F) (o : Observation F) (now : ℕ) where
  pub record Sound (key : String) (e : Event F) : Type 0 where
    pub owner : (e.watch_id ≡ ev.watch_id) × (e.revision ≡ ev.revision) × (e.entity ≡ key)
    pub timed : e.at ≡ now
    pub identified : e.id ≡ rt.identity ev.watch_id ev.revision key e.kind o.sequence
    pub ascending : Ascending e.evidence
    pub own : contains o.sequence e.evidence ≡ true

  emit-Sound :
      (kind : Kind) (reason : String) (s : State F) {e : Event F}
      → emit rt ev o now kind reason s ≡ ok e
      → Sound s.entity e
  unfolding emit event_id
  emit-Sound kind reason s h =
      ground (
        arith,
        evidence_of-Ascending rt ev o kind s,
        evidence_of-contains rt ev o kind s o.sequence,
      )

  abbrev Emitted : Step F → Type 0
  Emitted (s, es) = All (Sound s.entity) es

  moved :
      (s t : State F) (es : List (Event F))
      → t.entity ≡ s.entity
      → Emitted (s, es)
      → Emitted (t, es)
  moved s t es q h = subst (λ k. All (Sound k) es) (sym q) h

  snoc :
      (s t : State F) (es : List (Event F)) (kind : Kind) (reason : String) {e : Event F}
      → t.entity ≡ s.entity
      → emit rt ev o now kind reason s ≡ ok e
      → Emitted (s, es)
      → Emitted (t, es ++ (e ∷ []))
  snoc s t es kind reason {e} q p h =
      moved s t _ q (All-append (Sound s.entity) es (e ∷ []) h (emit-Sound kind reason s p, tt))

  emit_step-Emitted :
      (kind : Kind) (reason : String) (update : State F → State F) (s : State F)
      (es : List (Event F))
      → (update s).entity ≡ s.entity
      → Emitted (s, es)
      → Ensures Emitted (emit_step rt ev o now kind reason update (s, es))
  unfolding emit_step
  emit_step-Emitted kind reason update s es q h =
      Ensures-bind (λ e. emit rt ev o now kind reason s ≡ ok e) Emitted
        (emit rt ev o now kind reason s) (λ e. ok (update s, es ++ (e ∷ [])))
        (Ensures-of _ (emit rt ev o now kind reason s) (λ e p. p))
        (λ e p. snoc s (update s) es kind reason q p h)

  signal_step-Emitted :
      (matched : Bool) (s : State F) (es : List (Event F))
      → Emitted (s, es)
      → Ensures Emitted (signal_step rt ev o now matched (s, es))
  unfolding signal_step
  signal_step-Emitted matched s es h =
      Ensures-bind Emitted Emitted _ _
        (Ensures-if Emitted (matched && is_due rt ev o now s) _ _
          (λ _.
            emit_step-Emitted (signal_kind rt ev o now ev.operator)
              (signal_reason rt ev o now ev.operator) (λ t. record t { last_fired = now }) s es refl
              h)
          (λ _. h))
        (λ _ p. p)

  count_match-entity : (s : State F) → (count_match rt ev o now s).entity ≡ s.entity
  unfolding count_match
  count_match-entity s = ground arith

  matched_step-Emitted :
      (s : State F) (es : List (Event F))
      → Emitted (s, es)
      → Ensures Emitted (matched_step rt ev o now (s, es))
  unfolding matched_step fire_step opened fired
  matched_step-Emitted s es h =
      let t = count_match rt ev o now s in
      let counted : Emitted (t, es) = moved s t es (count_match-entity s) h in
      Ensures-if Emitted (leb ev.consecutive t.matches) _ _
        (λ _.
          Ensures-bind Emitted Emitted _ _
            (Ensures-if Emitted (eligible rt ev o now t) _ _
              (λ _.
                emit_step-Emitted firing "condition_matched" (fired rt ev o now) t es refl counted)
              (λ _. counted))
            (λ _ p. p))
        (λ _. counted)

  unmatched_step-Emitted :
      (s : State F) (es : List (Event F))
      → Emitted (s, es)
      → Ensures Emitted (unmatched_step rt ev o now (s, es))
  unfolding unmatched_step
  unmatched_step-Emitted s es h =
      Ensures-if Emitted s.is_open _ _
        (λ p.
          Ensures-if Emitted (leb ev.recover_after (s.recoveries + 1)) _ _
            (λ _.
              emit_step-Emitted recovered "condition_recovered" (closed rt ev o now) _ es refl h)
            (λ _. h))
        (λ _. h)

  policy_step-Emitted :
      (matched : Bool) (r : Step F)
      → Emitted r
      → Ensures Emitted (policy_step rt ev o now matched r)
  unfolding policy_step
  policy_step-Emitted matched (s, es) h =
      Ensures-if Emitted (is_signal ev.operator) (signal_step rt ev o now matched (s, es))
        (incident_step rt ev o now matched (s, es)) (λ _. signal_step-Emitted matched s es h)
        (λ _. by_match matched)
    where
      by_match : (m : Bool) → Ensures Emitted (incident_step rt ev o now m (s, es))
      by_match true = matched_step-Emitted s es h
      by_match false = unmatched_step-Emitted s es h

  Emitted-Stable : Stable rt ev o now Emitted
  Emitted-Stable = record {
    kept = record {
      breaks = λ s es h. h;
      stamps = λ s es at h. h;
      fails = λ s es reason e q p h. snoc s (failed rt ev o now s) es source_error reason refl p h;
      heals = λ s es e q p h. snoc s (healed s) es source_recovered "source_recovered" refl p h;
      applies = policy_step-Emitted;
    };
    predicts =
        λ s es h. moved s (predicate rt ev s o now).0 es (predicate-Frame rt ev s o now).entity h;
    shifts = λ s h. tt;
    gaps = λ s es e p h. snoc s s es sampling_gap "sampling_gap" refl p h;
    waits = λ s es reason h. h;
  }

  -- Every event of a successful evaluation carries the watch, its revision, the entity of the
  -- resulting state and the accepted time, has the digest of its own identity as its id, and a
  -- strictly ascending evidence list that contains the sequence of the observation.
  pub evaluate-Sound :
      (s : State F) (t : Transition F)
      → evaluate rt ev o now s ≡ ok t
      → All (Sound t.state.entity) t.events
  evaluate-Sound s t e = (evaluate_rule rt ev o now Emitted s Emitted-Stable (λ k. tt) e).0
