-- ===== src/Condition/Windowed.antt =====
-- internal/condition/transition.go `predicate`: the part for a numeric expression, with its samples.
-- A test `t.After(now.Add(-d))` is written `now < t + d`.
use ding.Base.{
  ℕ, ◌+◌, Bool, ◌&&◌, ◌||◌, Option, none, some, List, [], ◌∷◌, ◌++◌, ltb, leb, ◌==◌, if◌then◌else◌,
  length, keep, map, Result, ok, err,
}
use ding.Base.Int.{ℤ}
use ding.Watch.{Value}
use ding.Condition.Numeric.{Expr, Window, windows, eval}
use ding.Condition.Model.{Sample, State, Evaluator, Runtime}
use ding.Condition.Compare.{Verdict, unknown, known, number_of, aggregate}

module _ {F : Type 0} where
  -- The samples of the window that ends at `now`.
  unfoldable pub in_window : ℕ → ℕ → Sample F → Bool
  in_window now window x = ltb now (x.at + window) && leb x.at now

  -- The retained samples of `predicate`.
  unfoldable pub prune : ℕ → ℕ → List (Sample F) → List (Sample F)
  prune now window = keep (in_window now window)

  window_values : ℕ → ℕ → List (Sample F) → List F
  window_values now window xs = map (λ x. x.value) (keep (in_window now window) xs)

  unfoldable pub overflow : Evaluator F → State F → ℕ → State F
  overflow ev s now =
      let until = now + ev.max_window in
      record s { overflow_until = if ltb s.overflow_until until then until else s.overflow_until }

  -- `none` is an exhausted sample budget.
  unfoldable pub add_sample : Evaluator F → State F → F → ℕ → ℕ → Option (State F)
  add_sample ev s x sequence now =
      if ltb 0 ev.max_window
      then if leb ev.max_samples (length s.samples)
        then none
        else some (record s {
          samples = s.samples ++ (record { at = now; value = x; sequence = sequence } ∷ []);
        })
      else some s

module _ {F : Type 0} (rt : Runtime F) where
  open rt use {floats, encode_scalar}

  -- The aggregates of the windows, or the reason why one of them cannot be had.
  collect : ℕ → List (Sample F) → List Window → List (ℤ × F) → Result (List (ℤ × F))
  collect now samples [] done = ok done
  collect now samples (w ∷ ws) done =
      let values = window_values now w.window samples in
      let total = aggregate floats w.function values in
      let rest = collect now samples ws ((w.id, total) ∷ done) in
      if length values == 0
      then err "empty_window"
      else if floats.is_inf total || floats.is_nan total
      then err "numeric_overflow"
      else rest

  unfoldable pub decide_window : Evaluator F → Expr F → F → State F → ℕ → State F × Verdict
  unfolding collect window_values
  decide_window ev e x s now =
      let s' = record s { clock_window_until = 0 } in
      let s'' = record s { clock_window_until = 0; overflow_until = 0 } in
      if ltb now s.clock_window_until
      then (s, unknown "clock_window_incomplete")
      else if ltb now s.overflow_until
      then (s', unknown "window_sample_budget")
      else (
        s'',
        elim (collect now s.samples (windows e) []) [
          | ok totals ↦ known (eval floats e (record { value = x; aggregates = totals }))
          | err reason ↦ unknown reason
        ],
      )

  unfoldable pub predicate_number : Evaluator F → Expr F → State F → F → ℕ → ℕ → State F × Verdict
  unfolding decide_window overflow
  predicate_number ev e s x sequence now =
      let s' = record s { samples = prune now ev.max_window s.samples } in
      elim (add_sample ev s' x sequence now) [
        | none ↦ (overflow ev s' now, unknown "window_sample_budget")
        | some s'' ↦ decide_window ev e x s'' now
      ]

  unfoldable pub predicate_numeric :
      Evaluator F → Expr F → State F → Value F → ℕ → ℕ → State F × Verdict
  unfolding predicate_number
  predicate_numeric ev e s v sequence now = elim (number_of floats v) [
    | none ↦ (s, unknown "wrong_field_type")
    | some x ↦ predicate_number ev e s x sequence now
  ]
