-- ===== src/Condition/Lifecycle.antt =====
-- The incident and health automaton that the events of an entity drive, and the refinement: under an
-- edge trigger the events of every evaluation replay from the status before it to the status after.
use ding.Base.{
  ℕ, suc, Option-cases, ◌+◌, ◌&&◌, ◌≡◌, refl, sym, ap, ◌∙◌, subst, String, Bool, true, false,
  Option, none, some, List, [], ◌∷◌, ◌++◌, ok, if◌then◌else◌, leb, arith, inl, inr, ◌⊎◌,
}
use ding.Base.Ensures.{Ensures, Ensures-bind, Ensures-if, Ensures-of}
use ding.Watch.{
  Observation, Kind, firing, recovered, source_error, source_recovered, sampling_gap, Event,
}
use ding.Condition.Model.{State, Transition, Evaluator, Runtime, Operator}
use ding.Condition.Compare.{is_signal}
use ding.Condition.Emit.{emit}
use ding.Condition.Frame.{Frame, predicate-Frame}
use ding.Condition.Policy.{
  Step, healed, failed, emit_step, policy_step, signal_step, matched_step, unmatched_step, is_due,
  signal_kind, count_match, fire_step, fired, opened, eligible, closed, incident_step,
}
use ding.Condition.Evaluate.{evaluate, clock_state}
use ding.Condition.Evaluate.Clock.{clock_state-Shifted}
use ding.Condition.Evaluate.Rule.{Stable, evaluate_rule}

-- Whether an incident is open and whether the source is failing.
pub record Status : Type 0 where
  pub is_open : Bool
  pub unhealthy : Bool

abbrev pub status : {F : Type 0} → State F → Status
status s = record { is_open = s.is_open; unhealthy = s.source_unhealthy }

-- One event; an event that the status does not allow has no successor.
unfoldable pub advance : Kind → Status → Option Status
advance firing st = if st.is_open then none else some (record st { is_open = true })
advance recovered st = if st.is_open then some (record st { is_open = false }) else none
advance source_error st = if st.unhealthy then none else some (record st { unhealthy = true })
advance source_recovered st = if st.unhealthy then some (record st { unhealthy = false }) else none
advance _ st = some st

abbrev then_advance : Kind → Option Status → Option Status
then_advance k none = none
then_advance k (some st) = advance k st

replay_from : {F : Type 0} → Option Status → List (Event F) → Option Status
replay_from st [] = st
replay_from st (e ∷ es) = replay_from (then_advance e.kind st) es

unfoldable pub replay : {F : Type 0} → Status → List (Event F) → Option Status
unfolding replay_from
replay st es = replay_from (some st) es

abbrev pub count : {F : Type 0} → (Kind → Bool) → List (Event F) → ℕ
count p [] = 0
count p (e ∷ es) = let rest = count p es in if p e.kind then suc rest else rest

abbrev pub is_firing : Kind → Bool
is_firing firing = true
is_firing _ = false

abbrev pub is_recovered : Kind → Bool
is_recovered recovered = true
is_recovered _ = false

abbrev pub open_count : Status → ℕ
open_count st = if st.is_open then 1 else 0

-- A watch whose events are edges: an edge trigger, or a change or new-event condition.
abbrev pub IsEdge : {F : Type 0} → Evaluator F → Type 0
IsEdge ev = (ev.is_level ≡ false) ⊎ (is_signal ev.operator ≡ true)

advance-count :
    (k : Kind) (a : Status) {b : Status}
    → advance k a ≡ some b
    → (if is_firing k then 1 else 0) + open_count a
      ≡ (if is_recovered k then 1 else 0) + open_count b
unfolding advance
advance-count firing a h = ground arith
advance-count _ a h = ground arith

module _ {F : Type 0} where
  replay_from-append :
      (st : Option Status) (es fs : List (Event F))
      → replay_from st (es ++ fs) ≡ replay_from (replay_from st es) fs
  unfolding replay_from
  replay_from-append st [] fs = refl
  replay_from-append st (x ∷ es) fs = replay_from-append (then_advance x.kind st) es fs

  -- Two runs in a row.
  pub replay-append :
      (st : Status) {mid : Status} (es fs : List (Event F))
      → replay st es ≡ some mid
      → replay st (es ++ fs) ≡ replay mid fs
  unfolding replay
  replay-append st es fs h = rw (replay_from-append (some st) es fs, h)

  -- A failed replay stays failed.
  replay_from-none : (es : List (Event F)) → replay_from none es ≡ none
  unfolding replay_from
  replay_from-none [] = refl
  replay_from-none (x ∷ es) = replay_from-none es

  balance :
      (a : Status) (es : List (Event F)) {b : Status}
      → replay_from (some a) es ≡ some b
      → count is_firing es + open_count a ≡ count is_recovered es + open_count b
  unfolding replay_from
  balance a [] h = ground arith
  balance a (e ∷ es) h = elim (Option-cases (advance e.kind a)) [
    | inl p ↦ cc (replay_from-none es, rw p at h)
    | inr (m, p) ↦ ground (arith, advance-count e.kind a p, balance m es (rw p at h))
  ]

  pub replay-balance :
      (a : Status) {b : Status} (es : List (Event F))
      → replay a es ≡ some b
      → count is_firing es + open_count a ≡ count is_recovered es + open_count b
  unfolding replay
  replay-balance a es h = balance a es h

  replay_from-snoc :
      (st : Option Status) (es : List (Event F)) (e : Event F)
      → replay_from st (es ++ (e ∷ [])) ≡ then_advance e.kind (replay_from st es)
  unfolding replay_from
  replay_from-snoc st [] e = refl
  replay_from-snoc st (x ∷ es) e = replay_from-snoc (then_advance x.kind st) es e

  -- The events so far lead from a first status to that of the state.
  abbrev Traced : Status → Step F → Type 0
  Traced st (s, es) = replay_from (some st) es ≡ some (status s)

  Traced-snoc :
      (st : Status) (s t : State F) (es : List (Event F)) (e : Event F)
      → advance e.kind (status s) ≡ some (status t)
      → Traced st (s, es)
      → Traced st (t, es ++ (e ∷ []))
  Traced-snoc st s t es e a h = rw (replay_from-snoc (some st) es e) (rw h a)

module _ {F : Type 0} (rt : Runtime F) (ev : Evaluator F) (o : Observation F) (now : ℕ) where
  pub emit-kind :
      (kind : Kind) (reason : String) (s : State F) {e : Event F}
      → emit rt ev o now kind reason s ≡ ok e
      → e.kind ≡ kind
  unfolding emit
  emit-kind kind reason s h = ground arith

  -- `later` is what the caller still does to the state.
  emit_step-Traced :
      (st : Status) (kind : Kind) (reason : String) (update later : State F → State F) (s : State F)
      (es : List (Event F))
      → advance kind (status s) ≡ some (status (later (update s)))
      → Traced st (s, es)
      → Ensures (λ r. Traced st (later r.0, r.1)) (emit_step rt ev o now kind reason update (s, es))
  unfolding emit_step
  emit_step-Traced st kind reason update later s es a h =
      Ensures-bind (λ e. e.kind ≡ kind) _ (emit rt ev o now kind reason s) _
        (Ensures-of _ _ (λ e p. emit-kind kind reason s p))
        (λ e p.
          Traced-snoc st s (later (update s)) es e
            (subst (λ x. advance x (status s) ≡ some (status (later (update s)))) (sym p) a) h)

  signal_step-Traced :
      (st : Status) (matched : Bool) (s : State F) (es : List (Event F))
      → Traced st (s, es)
      → Ensures (Traced st) (signal_step rt ev o now matched (s, es))
  unfolding signal_step advance
  signal_step-Traced st matched s es h =
      Ensures-bind (Traced st) (Traced st) _ _
        (Ensures-if (Traced st) (matched && is_due rt ev o now s) _ _
          (λ _.
            emit_step-Traced st (signal_kind rt ev o now ev.operator) _
              (λ t. record t { last_fired = now }) (λ t. t) s es (signal_allowed ev.operator) h)
          (λ _. h))
        (λ _ p. p)
    where
      signal_allowed :
          (op : Operator) → advance (signal_kind rt ev o now op) (status s) ≡ some (status s)
      signal_allowed Operator.changed = refl
      signal_allowed Operator.new_event = refl
      signal_allowed _ = refl

  count_match-Traced :
      (st : Status) (s : State F) (es : List (Event F))
      → Traced st (s, es)
      → Traced st (count_match rt ev o now s, es)
  unfolding count_match
  count_match-Traced st s es h = ground arith

  fire_step-Traced :
      (st : Status) (s : State F) (es : List (Event F))
      → ev.is_level ≡ false
      → Traced st (s, es)
      → Ensures (λ r. Traced st (opened rt ev o now r)) (fire_step rt ev o now (s, es))
  unfolding fire_step advance opened
  fire_step-Traced st s es edge h =
      Ensures-if _ (eligible rt ev o now s) _ _
        (λ p.
          emit_step-Traced st firing "condition_matched" (fired rt ev o now)
            (λ t. record t { is_open = true }) s es (ground arith) h)
        (λ p. ground arith)

  matched_step-Traced :
      (st : Status) (s : State F) (es : List (Event F))
      → ev.is_level ≡ false
      → Traced st (s, es)
      → Ensures (Traced st) (matched_step rt ev o now (s, es))
  unfolding matched_step advance
  matched_step-Traced st s es edge h =
      Ensures-if (Traced st) (leb ev.consecutive (count_match rt ev o now s).matches) _ _
        (λ _.
          Ensures-bind (λ r. Traced st (opened rt ev o now r)) (Traced st) _ _
            (fire_step-Traced st (count_match rt ev o now s) es edge (count_match-Traced st s es h))
            (λ _ p. p))
        (λ _. count_match-Traced st s es h)

  unmatched_step-Traced :
      (st : Status) (s : State F) (es : List (Event F))
      → Traced st (s, es)
      → Ensures (Traced st) (unmatched_step rt ev o now (s, es))
  unfolding unmatched_step advance
  unmatched_step-Traced st s es h =
      Ensures-if (Traced st) s.is_open _ _
        (λ p.
          Ensures-if (Traced st) (leb ev.recover_after (s.recoveries + 1)) _ _
            (λ _.
              emit_step-Traced st recovered "condition_recovered" (closed rt ev o now) (λ t. t) _ es
                (ground arith) h)
            (λ _. h))
        (λ _. h)

  policy_step-Traced :
      (st : Status) (matched : Bool) (r : Step F)
      → IsEdge ev
      → Traced st r
      → Ensures (Traced st) (policy_step rt ev o now matched r)
  unfolding policy_step
  policy_step-Traced st matched (s, es) edge h =
      Ensures-if (Traced st) (is_signal ev.operator) (signal_step rt ev o now matched (s, es))
        (incident_step rt ev o now matched (s, es)) (λ _. signal_step-Traced st matched s es h)
        (λ q. by_match (ground arith) matched)
    where
      by_match :
          ev.is_level ≡ false
          → (m : Bool) → Ensures (Traced st) (incident_step rt ev o now m (s, es))
      by_match e true = matched_step-Traced st s es e h
      by_match e false = unmatched_step-Traced st s es h

  Traced-Stable : (st : Status) → IsEdge ev → Stable rt ev o now (Traced st)
  unfolding advance
  Traced-Stable st edge = record {
    kept = record {
      breaks = λ s es h. h;
      stamps = λ s es at h. h;
      fails = λ s es reason e q p h.
          Traced-snoc st s (failed rt ev o now s) es e
            (rw (emit-kind source_error reason s p) (ground arith)) h;
      heals = λ s es e q p h.
          Traced-snoc st s (healed s) es e
            (rw (emit-kind source_recovered "source_recovered" s p) (ground arith)) h;
      applies = λ matched r h. policy_step-Traced st matched r edge h;
    };
    predicts = λ s es h. h ∙ ap some (same_status s (predicate-Frame rt ev s o now));
    shifts = λ s h. h ∙ ap some (clock_state-status s);
    gaps = λ s es e p h. Traced-snoc st s s es e (rw (emit-kind sampling_gap "sampling_gap" s p)) h;
    waits = λ s es reason h. h;
  }
    where
      same_status : (s : State F) {t : State F} → Frame ev.max_samples s t → status s ≡ status t
      same_status s f = ground arith

      clock_state-status : (s : State F) → status s ≡ status (clock_state ev s now)
      clock_state-status s = ground (arith, clock_state-Shifted ev s now)

  -- The events of one evaluation are a run of the automaton between the two statuses.
  pub evaluate-replay :
      (s : State F) (t : Transition F)
      → IsEdge ev
      → evaluate rt ev o now s ≡ ok t
      → replay (status s) t.events ≡ some (status t.state)
  unfolding replay
  evaluate-replay s t edge e =
      (evaluate_rule rt ev o now (Traced (status s)) s (Traced-Stable (status s) edge) (λ k. refl)
        e).0
