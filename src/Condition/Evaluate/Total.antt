-- ===== src/Condition/Evaluate/Total.antt =====
-- `Evaluate` fails only for the reasons that its guards and `emit` name: with the guards met, a key,
-- and events that can be rendered and copied, it returns a transition on every branch.
use ding.Base.{
  ℕ, ◌+◌, ◌<◌, ◌≡◌, ◌⊎◌, String, Bool, true, false, not, ◌&&◌, some, [], ok, ◌>>=◌, leb, ltb,
  str_eq, arith, if◌then◌else◌,
}
use ding.Base.Ensures.{Succeeds, Succeeds-bind, Succeeds-if, Succeeds-value}
use ding.Watch.{
  Fields, Observation, Kind, firing, recovered, source_error, source_recovered, sampling_gap,
  Health, unchanged, gap, clock, waiting, json_copy_fields, is_healthy, detail_or_default, is_timer,
}
use ding.Condition.Model.{State, Transition, Evaluator, Runtime}
use ding.Condition.Compare.{Verdict, is_signal}
use ding.Condition.Emit.{emit, message_of}
use ding.Condition.Predicate.{predicate}
use ding.Condition.Policy.{
  Step, broken, healed, failed, emit_step, recover_source, unknown_step, known_step, policy_step,
  signal_step, matched_step, unmatched_step, is_due, signal_kind, signal_reason, count_match,
  count_recovery, fire_step, fired, eligible, closed, incident_step,
}
use ding.Condition.Evaluate.{
  clock_state, quiet, emit_gap, gap_step, elapsed, waits_for_missing, waiting_step, decide,
  filtered, uncounted, filter_step, sampled, in_order, forward, observe, evaluate, observed_key,
  chosen_entity,
}

module _ {F : Type 0} (rt : Runtime F) (ev : Evaluator F) (o : Observation F) (now : ℕ) where
  abbrev Emits : Type 0
  Emits = (kind : Kind) (reason : String) (s : State F) → Succeeds (emit rt ev o now kind reason s)

  -- Without a message template the only failure of `emit` is a field that JSON cannot write.
  plain-Emits :
      {f : Fields F} → ev.has_message ≡ false → json_copy_fields rt.floats o.fields ≡ some f → Emits
  unfolding emit message_of
  plain-Emits p q kind reason s = ground arith

  module _ (emits : Emits) where
    emit_step-Succeeds :
        (kind : Kind) (reason : String) (update : State F → State F) (st : Step F)
        → Succeeds (emit_step rt ev o now kind reason update st)
    unfolding emit_step
    emit_step-Succeeds kind reason update (s, es) =
        Succeeds-bind _ _ (emits kind reason s) (λ _. tt)

    unknown_step-Succeeds :
        (reason : String) (st : Step F) → Succeeds (unknown_step rt ev o now reason st)
    unfolding unknown_step
    unknown_step-Succeeds reason (s, es) =
        Succeeds-bind _ _
          (Succeeds-if s.source_unhealthy _ _ tt
            (emit_step-Succeeds source_error reason (failed rt ev o now) (broken s, es)))
          (λ _. tt)

    fire_step-Succeeds : (st : Step F) → Succeeds (fire_step rt ev o now st)
    unfolding fire_step
    fire_step-Succeeds (s, es) =
        Succeeds-if (eligible rt ev o now s) _ _
          (emit_step-Succeeds firing "condition_matched" (fired rt ev o now) (s, es)) tt

    incident_step-Succeeds :
        (matched : Bool) (st : Step F) → Succeeds (incident_step rt ev o now matched st)
    unfolding incident_step matched_step unmatched_step
    incident_step-Succeeds true (s, es) =
        Succeeds-if (leb ev.consecutive (count_match rt ev o now s).matches) _ _
          (Succeeds-bind _ _ (fire_step-Succeeds (count_match rt ev o now s, es)) (λ _. tt)) tt
    incident_step-Succeeds false (s, es) =
        Succeeds-if s.is_open _ _
          (Succeeds-if (leb ev.recover_after (s.recoveries + 1)) _ _
            (emit_step-Succeeds recovered "condition_recovered" (closed rt ev o now)
              (count_recovery rt ev o now s, es))
            tt)
          tt

    policy_step-Succeeds :
        (matched : Bool) (st : Step F) → Succeeds (policy_step rt ev o now matched st)
    unfolding policy_step signal_step
    policy_step-Succeeds matched (s, es) =
        Succeeds-if (is_signal ev.operator) _ (incident_step rt ev o now matched (s, es))
          (Succeeds-bind _ _
            (Succeeds-if (matched && is_due rt ev o now s) _ _
              (emit_step-Succeeds (signal_kind rt ev o now ev.operator)
                (signal_reason rt ev o now ev.operator) (λ t. record t { last_fired = now })
                (s, es))
              tt)
            (λ _. tt))
          (incident_step-Succeeds matched (s, es))

    known_step-Succeeds :
        (matched : Bool) (st : Step F) → Succeeds (known_step rt ev o now matched st)
    unfolding known_step
    known_step-Succeeds matched (s, es) =
        Succeeds-bind _ _
          (Succeeds-if (s.source_unhealthy && not (is_timer o.health)) _ _
            (emit_step-Succeeds source_recovered "source_recovered" healed (s, es)) tt)
          (λ st. Succeeds-bind _ _ (policy_step-Succeeds matched st) (λ _. tt))

    quiet_gap-Succeeds : (s : State F) → Succeeds (emit_gap rt ev o now s)
    unfolding emit_gap
    quiet_gap-Succeeds s = emit_step-Succeeds sampling_gap "sampling_gap" (λ t. t) (s, [])

    decide-Succeeds : (st : Step F) → Succeeds (decide rt ev o now st)
    unfolding decide
    decide-Succeeds (s, es) = after (predicate rt ev s o now)
      where
        after :
            (r : State F × Verdict)
            → Succeeds (elim r.1 [
              | Verdict.unknown reason ↦ unknown_step rt ev o now reason (r.0, es)
              | Verdict.known matched ↦ known_step rt ev o now matched (r.0, es)
            ])
        after (t, Verdict.unknown reason) = unknown_step-Succeeds reason (t, es)
        after (t, Verdict.known matched) = known_step-Succeeds matched (t, es)

    sampled-Succeeds : (st : Step F) → Succeeds (sampled rt ev o now st)
    unfolding sampled filter_step
    sampled-Succeeds st =
        Succeeds-if (uncounted rt ev o now) (unknown_step rt ev o now (detail_or_default o) st)
          (filter_step rt ev o now st) (unknown_step-Succeeds (detail_or_default o) st)
          (Succeeds-if (filtered rt ev o now) (ok (quiet rt ev o now "filtered" st))
            (decide rt ev o now st) tt (decide-Succeeds st))

    waiting_step-Succeeds : (st : Step F) → Succeeds (waiting_step rt ev o now st)
    unfolding waiting_step recover_source
    waiting_step-Succeeds (s, es) =
        Succeeds-bind _ _
          (Succeeds-if (s.source_unhealthy && not (str_eq o.detail "collection_ended")) _ _
            (emit_step-Succeeds source_recovered "source_recovered" healed (_, es)) tt)
          (λ _. tt)

    in_order-Succeeds : (st : Step F) → Succeeds (in_order rt ev o now st)
    unfolding in_order
    in_order-Succeeds st = cases o.health
      where
        waits : Bool
        waits = waits_for_missing rt ev o now

        cases :
            (x : Health)
            → Succeeds (elim x [
              | unchanged ↦
                  if waits then sampled rt ev o now st else ok (quiet rt ev o now "unchanged" st)
              | waiting ↦ if waits then sampled rt ev o now st else waiting_step rt ev o now st
              | _ ↦ sampled rt ev o now st
            ])
        cases unchanged = Succeeds-if waits (sampled rt ev o now st) _ (sampled-Succeeds st) tt
        cases waiting =
            Succeeds-if waits (sampled rt ev o now st) (waiting_step rt ev o now st)
              (sampled-Succeeds st) (waiting_step-Succeeds st)
        cases _ = sampled-Succeeds st

    elapsed-Succeeds : (s : State F) → Succeeds (elapsed rt ev o now s)
    unfolding elapsed
    elapsed-Succeeds s =
        Succeeds-if _ (emit_gap rt ev o now (broken s)) (ok (s, [])) (quiet_gap-Succeeds (broken s))
          tt

    gap_step-Succeeds : (s : State F) → Succeeds (gap_step rt ev o now s)
    unfolding gap_step
    gap_step-Succeeds s =
        Succeeds-bind
          (emit_gap rt ev o now (record (broken s) { last_at = now; last_sequence = o.sequence })) _
          (quiet_gap-Succeeds _) (λ _. tt)

    forward-Succeeds : (s : State F) → Succeeds (forward rt ev o now s)
    unfolding forward
    forward-Succeeds s = cases o.health
      where
        cases :
            (x : Health)
            → Succeeds (elim x [
              | gap ↦ gap_step rt ev o now s
              | _ ↦ elapsed rt ev o now s >>= in_order rt ev o now
            ])
        cases gap = gap_step-Succeeds s
        cases _ =
            Succeeds-bind (elapsed rt ev o now s) (in_order rt ev o now) (elapsed-Succeeds s)
              in_order-Succeeds

    observe-Succeeds : (s : State F) → Succeeds (observe rt ev o now s)
    unfolding observe
    observe-Succeeds s = cases o.health
      where
        cases :
            (x : Health)
            → Succeeds (elim x [
              | clock ↦ unknown_step rt ev o now "clock_discontinuity" (clock_state ev s now, [])
              | _ ↦
                  if ltb 0 s.last_at && ltb now s.last_at
                  then unknown_step rt ev o now "clock_moved_backwards" (s, [])
                  else forward rt ev o now s
            ])
        cases clock = unknown_step-Succeeds "clock_discontinuity" (clock_state ev s now, [])
        cases _ =
            Succeeds-if (ltb 0 s.last_at && ltb now s.last_at)
              (unknown_step rt ev o now "clock_moved_backwards" (s, [])) (forward rt ev o now s)
              (unknown_step-Succeeds "clock_moved_backwards" (s, [])) (forward-Succeeds s)

  -- The guards of `Evaluate` on an observation with a given key.
  pub record Accepted (s : State F) (key : String) : Type 0 where
    pub timed : 0 < now
    pub accepted : now ≡ o.accepted_at
    pub later : s.last_sequence < o.sequence
    pub keyed : observed_key rt ev o now ≡ ok key
    pub same_entity :
        (str_eq s.entity "" ≡ true) ⊎ ((str_eq s.entity key ≡ true) ⊎ (is_healthy o.health ≡ false))

  chosen-Succeeds :
      (s : State F) (key : String) → Accepted s key → Succeeds (chosen_entity rt ev o now s key)
  unfolding chosen_entity
  chosen-Succeeds s key a = ground (arith, a.same_entity)

  -- Past its guards `Evaluate` chooses the entity and observes.
  evaluate_guarded :
      (s : State F) (key : String)
      → Accepted s key
      → evaluate rt ev o now s ≡ (
          chosen_entity rt ev o now s key >>= λ entity.
          observe rt ev o now (record s { waiting_reason = ""; entity = entity }))
  unfolding evaluate
  evaluate_guarded s key a = ground arith

  evaluate-Accepted :
      (s : State F) (key : String) → Emits → Accepted s key → Succeeds (evaluate rt ev o now s)
  evaluate-Accepted s key emits a = rw (evaluate_guarded s key a) (
      Succeeds-bind (chosen_entity rt ev o now s key) _ (chosen-Succeeds s key a)
        (λ entity. observe-Succeeds emits (record s { waiting_reason = ""; entity = entity })))

  -- For a watch without a message template, an observation with a positive accepted time, a
  -- sequence above the last one, a key, fields that JSON can write, and the entity of the state
  -- (or a health other than ok) is evaluated to a transition on every branch.
  pub evaluate-total :
      (s : State F) (key : String) {f : Fields F}
      → ev.has_message ≡ false
      → json_copy_fields rt.floats o.fields ≡ some f
      → Accepted s key
      → (t : Transition F) × (evaluate rt ev o now s ≡ ok t)
  evaluate-total s key p q a = Succeeds-value _ (evaluate-Accepted s key (plain-Emits p q) a)
