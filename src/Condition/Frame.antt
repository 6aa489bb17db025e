-- ===== src/Condition/Frame.antt =====
-- What the predicate leaves alone: it writes samples, deadlines, baselines and known identifiers,
-- and nothing of the incident, the source's health or the clock of the entity.
use ding.Base.{
  ℕ, ◌≤◌, ◌⊎◌, length, length-append, length-keep-le, ◌≡◌, refl, Option, none, some, [], ◌∷◌,
  Option-cases, Bool-cases, inl, inr, ltb, arith,
}
use ding.Watch.{Observation, lookup, Value}
use ding.Condition.Model.{State, Evaluator, Runtime, Operator, changed, new_event}
use ding.Condition.Numeric.{Expr}
use ding.Condition.Compare.{Verdict, unknown, number_of}
use ding.Condition.Windowed.{
  predicate_numeric, predicate_number, decide_window, add_sample, overflow, prune, in_window,
}
use ding.Condition.Signals.{signal_changed, signal_event, length-live-le}
use ding.Condition.Predicate.{predicate, predicate_missing, predicate_typed, predicate_value}

pub record Frame {F : Type 0} (limit : ℕ) (s t : State F) : Type 0 where
  pub entity : t.entity ≡ s.entity
  pub is_open : t.is_open ≡ s.is_open
  pub matches : t.matches ≡ s.matches
  pub recoveries : t.recoveries ≡ s.recoveries
  pub incident_event : t.incident_event ≡ s.incident_event
  pub last_at : t.last_at ≡ s.last_at
  pub last_fired : t.last_fired ≡ s.last_fired
  pub last_sequence : t.last_sequence ≡ s.last_sequence
  pub source_unhealthy : t.source_unhealthy ≡ s.source_unhealthy
  pub health_event : t.health_event ≡ s.health_event
  pub samples : length s.samples ≤ limit → length t.samples ≤ limit
  pub seen : length s.seen ≤ limit → length t.seen ≤ limit
  pub evidence : (t.evidence ≡ s.evidence) ⊎ (length t.evidence ≤ 1)

module _ {F : Type 0} where
  Frame-same : (ev : Evaluator F) (s : State F) → Frame ev.max_samples s s
  Frame-same ev s = ground arith

  predicate_missing-Frame :
      (ev : Evaluator F) (window : ℕ) (s : State F) (o : Observation F) (now : ℕ)
      → Frame ev.max_samples s (predicate_missing window s o now).0
  unfolding predicate_missing
  predicate_missing-Frame ev window s o now = ground arith

  signal_event-Frame :
      (ev : Evaluator F) (s : State F) (v : Value F) (now : ℕ)
      → Frame ev.max_samples s (signal_event ev s v now).0
  unfolding signal_event
  signal_event-Frame ev s v now = ground (arith, length-live-le now s.seen)

  add_sample-Frame :
      (ev : Evaluator F) (s : State F) (x : F) (sequence now : ℕ) {t : State F}
      → add_sample ev s x sequence now ≡ some t
      → Frame ev.max_samples s t
  unfolding add_sample
  add_sample-Frame ev s x sequence now e =
      ground
        (arith, length-append s.samples (record { at = now; value = x; sequence = sequence } ∷ []))

  overflow-Frame :
      (ev : Evaluator F) (s : State F) (now : ℕ) → Frame ev.max_samples s (overflow ev s now)
  unfolding overflow
  overflow-Frame ev s now = ground arith

  Frame-trans :
      (ev : Evaluator F) {s t u : State F}
      → Frame ev.max_samples s t
      → Frame ev.max_samples t u
      → Frame ev.max_samples s u
  Frame-trans ev h k = ground arith

  Frame-prune :
      (ev : Evaluator F) (s : State F) (now window : ℕ)
      → Frame ev.max_samples s (record s { samples = prune now window s.samples })
  unfolding prune
  Frame-prune ev s now window = ground (arith, length-keep-le (in_window now window) s.samples)

module _ {F : Type 0} (rt : Runtime F) (ev : Evaluator F) where
  signal_changed-Frame :
      (s : State F) (v : Value F) (sequence : ℕ)
      → Frame ev.max_samples s (signal_changed rt s v sequence).0
  unfolding signal_changed
  signal_changed-Frame s v sequence = ground arith

  decide_window-Frame :
      (e : Expr F) (x : F) (s : State F) (now : ℕ)
      → Frame ev.max_samples s (decide_window rt ev e x s now).0
  unfolding decide_window
  decide_window-Frame e x s now = elim (Bool-cases (ltb now s.clock_window_until)) [
    | inl p ↦ rw p (ground arith)
    | inr p ↦ rw p (elim (Bool-cases (ltb now s.overflow_until)) [
      | inl q ↦ rw q (ground arith)
      | inr q ↦ rw q (ground arith)
    ])
  ]

  predicate_number-Frame :
      (e : Expr F) (s : State F) (x : F) (sequence now : ℕ)
      → Frame ev.max_samples s (predicate_number rt ev e s x sequence now).0
  unfolding predicate_number
  predicate_number-Frame e s x sequence now = cases (add_sample ev pruned x sequence now) refl
    where
      pruned : State F
      pruned = record s { samples = prune now ev.max_window s.samples }

      cases :
          (r : Option (State F))
          → add_sample ev pruned x sequence now ≡ r
          → Frame ev.max_samples s
              (elim r as (λ _. State F × Verdict) [
                | none ↦ (overflow ev pruned now, unknown "window_sample_budget")
                | some u ↦ decide_window rt ev e x u now
              ]).0
      cases none q =
          Frame-trans ev {s = s} {t = pruned} (Frame-prune ev s now ev.max_window)
            (overflow-Frame ev pruned now)
      cases (some u) q =
          Frame-trans ev {s = s} {t = u}
            (Frame-trans ev {s = s} {t = pruned} (Frame-prune ev s now ev.max_window)
              (add_sample-Frame ev pruned x sequence now q))
            (decide_window-Frame e x u now)

  predicate_numeric-Frame :
      (e : Expr F) (s : State F) (v : Value F) (sequence now : ℕ)
      → Frame ev.max_samples s (predicate_numeric rt ev e s v sequence now).0
  unfolding predicate_numeric
  predicate_numeric-Frame e s v sequence now = elim (Option-cases (number_of rt.floats v)) [
    | inl q ↦ rw (q, predicate_numeric) (Frame-same ev s)
    | inr (x, q) ↦ rw (q, predicate_numeric) (predicate_number-Frame e s x sequence now)
  ]

  predicate_typed-Frame :
      (s : State F) (v : Value F) (sequence now : ℕ)
      → Frame ev.max_samples s (predicate_typed rt ev s v sequence now).0
  unfolding predicate_typed
  predicate_typed-Frame s v sequence now = elim (Option-cases ev.expression) [
    | inl q ↦ rw (q, predicate_typed) (Frame-same ev s)
    | inr (e, q) ↦ rw (q, predicate_typed) (predicate_numeric-Frame e s v sequence now)
  ]

  predicate_value-Frame :
      (s : State F) (v : Value F) (sequence now : ℕ)
      → Frame ev.max_samples s (predicate_value rt ev s v sequence now).0
  unfolding predicate_value
  predicate_value-Frame s v sequence now = cases ev.operator
    where
      cases :
          (op : Operator)
          → Frame ev.max_samples s
              (elim op as (λ _. State F × Verdict) [
                | changed ↦ signal_changed rt s v sequence
                | new_event ↦ signal_event ev s v now
                | _ ↦ predicate_typed rt ev s v sequence now
              ]).0
      cases changed = signal_changed-Frame s v sequence
      cases new_event = signal_event-Frame ev s v now
      cases _ = predicate_typed-Frame s v sequence now

  pub predicate-Frame :
      (s : State F) (o : Observation F) (now : ℕ)
      → Frame ev.max_samples s (predicate rt ev s o now).0
  unfolding predicate
  predicate-Frame s o now = elim (Option-cases ev.missing_for) [
    | inr (w, p) ↦ rw (p, predicate) (predicate_missing-Frame ev w s o now)
    | inl p ↦
        rw (p, predicate)
          (elim (Option-cases (lookup ev.field o.fields)) [
            | inl q ↦ rw (q, predicate) (Frame-same ev s)
            | inr (v, q) ↦ rw (q, predicate) (predicate_value-Frame s v o.sequence now)
          ])
  ]
