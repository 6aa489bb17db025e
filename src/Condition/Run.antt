-- ===== src/Condition/Run.antt =====
-- A sequence of evaluations of one entity, as a caller makes them: an evaluation that fails commits
-- nothing.
use ding.Base.{
  ℕ, ◌≡◌, refl, ◌∙◌, List, [], ◌∷◌, ◌++◌, Result, ok, err, some, Result-cases, inl, inr, ◌+◌,
}
use ding.Watch.{Observation, Event}
use ding.Condition.Model.{State, Transition, Evaluator, Runtime}
use ding.Condition.Evaluate.{evaluate}
use ding.Condition.Lifecycle.{
  status, IsEdge, replay, replay-append, evaluate-replay, replay-balance, count, is_firing,
  is_recovered, open_count,
}
use ding.Condition.Invariant.{Inv, evaluate-Inv}

module _ {F : Type 0} (rt : Runtime F) (ev : Evaluator F) where
  abbrev pub committed : State F → Result (Transition F) → State F × List (Event F)
  committed s (ok t) = (t.state, t.events)
  committed s (err e) = (s, [])

  -- Each observation comes with the time of its evaluation.
  unfoldable pub run : State F → List (Observation F × ℕ) → State F × List (Event F)
  run s [] = (s, [])
  run s ((o, now) ∷ os) =
      let (t, es) = committed s (evaluate rt ev o now s) in
      let (u, later) = run t os in (u, es ++ later)

  step-replay :
      (s : State F) (o : Observation F) (now : ℕ)
      → IsEdge ev
      → replay (status s) (committed s (evaluate rt ev o now s)).1
        ≡ some (status (committed s (evaluate rt ev o now s)).0)
  unfolding replay
  step-replay s o now edge = elim (Result-cases (evaluate rt ev o now s)) [
    | inl (t, p) ↦ rw p (evaluate-replay rt ev o now s t edge p)
    | inr (e, p) ↦ rw p refl
  ]

  -- Under an edge trigger, or for a change or new-event condition, the events that any history
  -- of observations leaves are a run of the incident and health automaton: replayed from the
  -- first status they are all allowed and give the last status. So a firing event always opens
  -- a closed incident, a recovered event closes an open one, and source errors and recoveries
  -- alternate.
  pub run-replay :
      (s : State F) (os : List (Observation F × ℕ))
      → IsEdge ev
      → replay (status s) (run s os).1 ≡ some (status (run s os).0)
  unfolding run
  run-replay s [] edge = unfold replay in refl
  run-replay s ((o, now) ∷ os) edge =
      let (t, es) = committed s (evaluate rt ev o now s) in
      replay-append (status s) es (run t os).1 (step-replay s o now edge) ∙ run-replay t os edge

  pub run-Inv : (s : State F) (os : List (Observation F × ℕ)) → Inv ev s → Inv ev (run s os).0
  unfolding run
  run-Inv s [] h = h
  run-Inv s ((o, now) ∷ os) h =
      run-Inv (committed s (evaluate rt ev o now s)).0 os
        (elim (Result-cases (evaluate rt ev o now s)) [
          | inl (t, p) ↦ rw p (evaluate-Inv rt ev o now s t h p).0
          | inr (e, p) ↦ rw p h
        ])

  -- Under an edge trigger, or for a change or new-event condition, over any history of
  -- observations the firing events and an incident open at the start are as many as the
  -- recovered events and an incident open at the end.
  pub run-balance :
      (s : State F) (os : List (Observation F × ℕ))
      → IsEdge ev
      → let (t, es) = run s os in
        count is_firing es + open_count (status s) ≡ count is_recovered es + open_count (status t)
  run-balance s os edge = replay-balance (status s) (run s os).1 (run-replay s os edge)
