-- ===== src/Condition/Evaluate/Rule.antt =====
-- An induction rule for `Evaluate`: a property of the state and the emitted events that the
-- elementary changes keep holds of the result, whichever branch the observation takes.
use ding.Base.{
  ℕ, ◌≡◌, refl, String, not, ◌&&◌, ◌||◌, List, [], ◌∷◌, ◌++◌, ltb, leb, if◌then◌else◌, ok, str_eq,
  and_left, err, ◌>>=◌, ◌==◌,
}
use ding.Base.Ensures.{Ensures, Ensures-bind, Ensures-if, Ensures-of, ensured}
use ding.Watch.{
  Observation, Kind, sampling_gap, Event, Health, unchanged, gap, clock, waiting, detail_or_default,
}
use ding.Condition.Model.{State, Transition, Evaluator, Runtime}
use ding.Condition.Compare.{Verdict}
use ding.Condition.Emit.{emit}
use ding.Condition.Predicate.{predicate}
use ding.Condition.Policy.{Step, broken, healed, unknown_step, known_step, recover_source}
use ding.Condition.Policy.Rule.{Kept, emit_step-Ensures, unknown_step-Ensures, known_step-Ensures}
use ding.Condition.Evaluate.{
  clock_state, quiet, emit_gap, gap_step, elapsed, waits_for_missing, waiting_step, decide,
  filtered, uncounted, filter_step, sampled, in_order, forward, observe, evaluate, observed_key,
  chosen_entity,
}

module _ {F : Type 0} (rt : Runtime F) (ev : Evaluator F) (o : Observation F) (now : ℕ) where
  pub record Stable (P : Step F → Type 0) : Type 0 where
    pub kept : Kept rt ev o now P
    pub predicts :
        (s : State F) (es : List (Event F)) → P (s, es) → P ((predicate rt ev s o now).0, es)
    pub shifts : (s : State F) → P (s, []) → P (clock_state ev s now, [])
    pub gaps :
        (s : State F) (es : List (Event F)) (e : Event F)
        → emit rt ev o now sampling_gap "sampling_gap" s ≡ ok e
        → P (s, es)
        → P (s, es ++ (e ∷ []))
    pub waits :
        (s : State F) (es : List (Event F)) (reason : String)
        → P (s, es)
        → P (record s { waiting_reason = reason }, es)

  module _ (P : Step F → Type 0) (k : Stable P) where
    abbrev Out : Transition F → Type 0
    Out t = P (t.state, t.events) × (t.state.last_sequence ≡ o.sequence)

    emit_gap-Ensures : (s : State F) → P (s, []) → Ensures P (emit_gap rt ev o now s)
    unfolding emit_gap
    emit_gap-Ensures s h =
        emit_step-Ensures rt ev o now P k.kept sampling_gap "sampling_gap" (λ t. t) s []
          (λ e p. k.gaps s [] e p h)

    quiet-Out : (reason : String) (st : Step F) → P st → Out (quiet rt ev o now reason st)
    unfolding quiet
    quiet-Out reason st h = (k.kept.stamps st.0 st.1 now h, refl)

    gap_step-Ensures : (s : State F) → P (s, []) → Ensures Out (gap_step rt ev o now s)
    unfolding gap_step
    gap_step-Ensures s h =
        Ensures-bind P Out _ _
          (emit_gap-Ensures _ (k.kept.stamps (broken s) [] now (k.kept.breaks s [] h)))
          (quiet-Out "sampling_gap")

    elapsed-Ensures : (s : State F) → P (s, []) → Ensures P (elapsed rt ev o now s)
    unfolding elapsed
    elapsed-Ensures s h =
        Ensures-if P _ (emit_gap rt ev o now (broken s)) (ok (s, []))
          (λ _. emit_gap-Ensures (broken s) (k.kept.breaks s [] h)) (λ _. h)

    waiting_step-Ensures : (st : Step F) → P st → Ensures Out (waiting_step rt ev o now st)
    unfolding waiting_step recover_source
    waiting_step-Ensures (s, es) h =
        Ensures-bind P Out _ _
          (Ensures-if P (s.source_unhealthy && not (str_eq o.detail "collection_ended")) _ _
            (λ q.
              emit_step-Ensures rt ev o now P k.kept Kind.source_recovered "source_recovered" healed
                t es (λ e p. k.kept.heals t es e (and_left _ _ q) p held))
            (λ _. held))
          (quiet-Out (detail_or_default o))
      where
        t : State F
        t = record (broken s) {
          waiting_reason = detail_or_default o;
          last_at = now;
          last_sequence = o.sequence;
        }

        held : P (t, es)
        held = k.kept.stamps _ es now (k.waits (broken s) es _ (k.kept.breaks s es h))

    decide-Ensures : (st : Step F) → P st → Ensures Out (decide rt ev o now st)
    unfolding decide
    decide-Ensures (s, es) h = after (predicate rt ev s o now) (k.predicts s es h)
      where
        after :
            (r : State F × Verdict)
            → P (r.0, es)
            → Ensures Out (elim r.1 [
              | Verdict.unknown reason ↦ unknown_step rt ev o now reason (r.0, es)
              | Verdict.known matched ↦ known_step rt ev o now matched (r.0, es)
            ])
        after (t, Verdict.unknown reason) p =
            unknown_step-Ensures rt ev o now P k.kept reason t es p
        after (t, Verdict.known matched) p = known_step-Ensures rt ev o now P k.kept matched t es p

    filter_step-Ensures : (st : Step F) → P st → Ensures Out (filter_step rt ev o now st)
    unfolding filter_step
    filter_step-Ensures st h =
        Ensures-if Out (filtered rt ev o now) (ok (quiet rt ev o now "filtered" st))
          (decide rt ev o now st) (λ _. quiet-Out "filtered" st h) (λ _. decide-Ensures st h)

    sampled-Ensures : (st : Step F) → P st → Ensures Out (sampled rt ev o now st)
    unfolding sampled
    sampled-Ensures st h =
        Ensures-if Out (uncounted rt ev o now) (unknown_step rt ev o now (detail_or_default o) st)
          (filter_step rt ev o now st)
          (λ _. unknown_step-Ensures rt ev o now P k.kept (detail_or_default o) st.0 st.1 h)
          (λ _. filter_step-Ensures st h)

    in_order-Ensures : (st : Step F) → P st → Ensures Out (in_order rt ev o now st)
    unfolding in_order
    in_order-Ensures st h = cases o.health
      where
        cases :
            (x : Health)
            → Ensures Out (elim x [
              | unchanged ↦
                  if waits_for_missing rt ev o now
                  then sampled rt ev o now st
                  else ok (quiet rt ev o now "unchanged" st)
              | waiting ↦
                  if waits_for_missing rt ev o now
                  then sampled rt ev o now st
                  else waiting_step rt ev o now st
              | _ ↦ sampled rt ev o now st
            ])
        cases unchanged =
            Ensures-if Out (waits_for_missing rt ev o now) (sampled rt ev o now st)
              (ok (quiet rt ev o now "unchanged" st)) (λ _. sampled-Ensures st h)
              (λ _. quiet-Out "unchanged" st h)
        cases waiting =
            Ensures-if Out (waits_for_missing rt ev o now) (sampled rt ev o now st)
              (waiting_step rt ev o now st) (λ _. sampled-Ensures st h)
              (λ _. waiting_step-Ensures st h)
        cases _ = sampled-Ensures st h

    forward-Ensures : (s : State F) → P (s, []) → Ensures Out (forward rt ev o now s)
    unfolding forward
    forward-Ensures s h = cases o.health
      where
        onward : Ensures Out (elapsed rt ev o now s >>= in_order rt ev o now)
        onward =
            Ensures-bind P Out (elapsed rt ev o now s) (in_order rt ev o now) (elapsed-Ensures s h)
              in_order-Ensures

        cases :
            (x : Health)
            → Ensures Out (elim x [
              | gap ↦ gap_step rt ev o now s
              | _ ↦ elapsed rt ev o now s >>= in_order rt ev o now
            ])
        cases gap = gap_step-Ensures s h
        cases _ = onward

    pub observe-Ensures : (s : State F) → P (s, []) → Ensures Out (observe rt ev o now s)
    unfolding observe
    observe-Ensures s h = cases o.health
      where
        timely : Ensures Out (
            if ltb 0 s.last_at && ltb now s.last_at
            then unknown_step rt ev o now "clock_moved_backwards" (s, [])
            else forward rt ev o now s)
        timely =
            Ensures-if Out (ltb 0 s.last_at && ltb now s.last_at)
              (unknown_step rt ev o now "clock_moved_backwards" (s, [])) (forward rt ev o now s)
              (λ _. unknown_step-Ensures rt ev o now P k.kept "clock_moved_backwards" s [] h)
              (λ _. forward-Ensures s h)

        cases :
            (x : Health)
            → Ensures Out (elim x [
              | clock ↦ unknown_step rt ev o now "clock_discontinuity" (clock_state ev s now, [])
              | _ ↦
                  if ltb 0 s.last_at && ltb now s.last_at
                  then unknown_step rt ev o now "clock_moved_backwards" (s, [])
                  else forward rt ev o now s
            ])
        cases clock =
            unknown_step-Ensures rt ev o now P k.kept "clock_discontinuity" (clock_state ev s now)
              [] (k.shifts s h)
        cases _ = timely

    -- What `Evaluate` hands on has its entity set and no waiting reason.
    evaluate-Ensures :
        (s : State F)
        → ((entity : String) → P (record s { waiting_reason = ""; entity = entity }, []))
        → Ensures Out (evaluate rt ev o now s)
    unfolding evaluate
    evaluate-Ensures s h =
        Ensures-if Out ((now == 0) || ((o.sequence == 0) || not (now == o.accepted_at)))
          (err "accepted time and positive sequence are required") _ (λ _. tt)
          (λ _.
            Ensures-if Out (leb o.sequence s.last_sequence)
              (err "observation sequence must increase") _ (λ _. tt)
              (λ _.
                Ensures-bind (λ _. Unit) Out (observed_key rt ev o now) _
                  (Ensures-of _ _ (λ _ _. tt))
                  (λ key _.
                    Ensures-bind (λ _. Unit) Out (chosen_entity rt ev o now s key) _
                      (Ensures-of _ _ (λ _ _. tt)) (λ entity _. observe-Ensures _ (h entity)))))

  -- The rule in the form in which a caller meets a successful evaluation.
  pub evaluate_rule :
      (P : Step F → Type 0) (s : State F) {t : Transition F}
      → Stable P
      → ((entity : String) → P (record s { waiting_reason = ""; entity = entity }, []))
      → evaluate rt ev o now s ≡ ok t
      → P (t.state, t.events) × (t.state.last_sequence ≡ o.sequence)
  evaluate_rule P s k h e = ensured (Out P k) _ (evaluate-Ensures P k s h) e
