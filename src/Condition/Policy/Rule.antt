-- ===== src/Condition/Policy/Rule.antt =====
-- An induction rule for `unknown` and for what follows a known predicate: a property of the state and
-- the emitted events that every elementary change keeps holds of the transition.
use ding.Base.{
  ℕ, ◌≡◌, refl, String, Bool, true, false, not, ◌&&◌, List, [], ◌∷◌, ◌++◌, ok, and_left,
}
use ding.Base.Ensures.{Ensures, Ensures-bind, Ensures-if, Ensures-of}
use ding.Watch.{Observation, Kind, source_error, source_recovered, Event, is_timer}
use ding.Condition.Model.{State, Transition, Evaluator, Runtime}
use ding.Condition.Emit.{emit}
use ding.Condition.Policy.{
  Step, broken, healed, failed, emit_step, unknown_step, policy_step, known_step,
}

-- The changes that the stages of `Evaluate` are built from, but for the policy.
module _ {F : Type 0} (rt : Runtime F) (ev : Evaluator F) (o : Observation F) (now : ℕ) where
  pub record Kept (P : Step F → Type 0) : Type 0 where
    pub breaks : (s : State F) (es : List (Event F)) → P (s, es) → P (broken s, es)
    pub stamps :
        (s : State F) (es : List (Event F)) (at : ℕ)
        → P (s, es)
        → P (record s { last_sequence = o.sequence; last_at = at }, es)
    pub fails :
        (s : State F) (es : List (Event F)) (reason : String) (e : Event F)
        → s.source_unhealthy ≡ false
        → emit rt ev o now source_error reason s ≡ ok e
        → P (s, es)
        → P (failed rt ev o now s, es ++ (e ∷ []))
    pub heals :
        (s : State F) (es : List (Event F)) (e : Event F)
        → s.source_unhealthy ≡ true
        → emit rt ev o now source_recovered "source_recovered" s ≡ ok e
        → P (s, es)
        → P (healed s, es ++ (e ∷ []))
    pub applies :
        (matched : Bool) (st : Step F) → P st → Ensures P (policy_step rt ev o now matched st)

  module _ (P : Step F → Type 0) (k : Kept P) where
    abbrev pub Holds : Transition F → Type 0
    Holds t = P (t.state, t.events) × (t.state.last_sequence ≡ o.sequence)

    pub emit_step-Ensures :
        (kind : Kind) (reason : String) (update : State F → State F) (s : State F)
        (es : List (Event F))
        → ((e : Event F) → emit rt ev o now kind reason s ≡ ok e → P (update s, es ++ (e ∷ [])))
        → Ensures P (emit_step rt ev o now kind reason update (s, es))
    unfolding emit_step
    emit_step-Ensures kind reason update s es h =
        Ensures-bind (λ e. emit rt ev o now kind reason s ≡ ok e) P (emit rt ev o now kind reason s)
          _ (Ensures-of _ _ (λ e p. p)) h

    pub unknown_step-Ensures :
        (reason : String) (s : State F) (es : List (Event F))
        → P (s, es)
        → Ensures Holds (unknown_step rt ev o now reason (s, es))
    unfolding unknown_step
    unknown_step-Ensures reason s es h =
        Ensures-bind P Holds _ _
          (Ensures-if P s.source_unhealthy _ _ (λ _. k.breaks s es h)
            (λ q.
              emit_step-Ensures source_error reason (failed rt ev o now) (broken s) es
                (λ e p. k.fails (broken s) es reason e q p (k.breaks s es h))))
          (λ st p. (k.stamps st.0 st.1 _ p, refl))

    pub known_step-Ensures :
        (matched : Bool) (s : State F) (es : List (Event F))
        → P (s, es)
        → Ensures Holds (known_step rt ev o now matched (s, es))
    unfolding known_step
    known_step-Ensures matched s es h =
        Ensures-bind P Holds _ _
          (Ensures-if P (s.source_unhealthy && not (is_timer o.health)) _ _
            (λ q.
              emit_step-Ensures source_recovered "source_recovered" healed s es
                (λ e p. k.heals s es e (and_left _ _ q) p h))
            (λ _. h))
          (λ st p.
            Ensures-bind P Holds _ _ (k.applies matched st p)
              (λ st' p'. (k.stamps st'.0 st'.1 now p', refl)))
