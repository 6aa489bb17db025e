-- ===== src/Condition/Evaluate/Clock.antt =====
-- What a clock discontinuity leaves alone, and that it drops samples and known identifiers only.
use ding.Base.{ℕ, ◌+◌, ◌≤◌, ◌≡◌, refl, String, List, [], ◌∷◌, arith, length}
use ding.Condition.Model.{State, Evaluator}
use ding.Condition.Signals.{live, length-live-le}
use ding.Condition.Evaluate.{clock_state, renew_all}

pub record Shifted {F : Type 0} (s t : State F) : Type 0 where
  pub entity : t.entity ≡ s.entity
  pub is_open : t.is_open ≡ s.is_open
  pub matches : t.matches ≡ s.matches
  pub recoveries : t.recoveries ≡ s.recoveries
  pub evidence : t.evidence ≡ s.evidence
  pub source_unhealthy : t.source_unhealthy ≡ s.source_unhealthy
  pub samples : t.samples ≡ []
  pub seen : length t.seen ≤ length s.seen

length-renew_all : (t : ℕ) (xs : List (String × ℕ)) → length (renew_all t xs) ≡ length xs
unfolding renew_all
length-renew_all t [] = refl
length-renew_all t ((k, u) ∷ xs) = omega (arith, length-renew_all t xs)

pub clock_state-Shifted :
    {F : Type 0} (ev : Evaluator F) (s : State F) (now : ℕ) → Shifted s (clock_state ev s now)
unfolding clock_state
clock_state-Shifted ev s now = ground (
  arith,
  length-renew_all (now + ev.dedup_for) (live s.last_at s.seen),
  length-live-le s.last_at s.seen,
)
