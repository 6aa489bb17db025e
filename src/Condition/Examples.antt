-- ===== src/Condition/Examples.antt =====
-- A watch on a latency above 300, two observations of it, and the theorems at that history.
use ding.Base.{
  ℕ, ◌+◌, ◌/◌, ◌≡◌, refl, true, false, List, [], ◌∷◌, none, some, map, ltb, ◌==◌, arith, ok, inl,
  min, max, All,
}
use ding.Base.Int.{pos_part}
use ding.Watch.{
  Floats, float64, end, field, Observation, healthy, Event, firing, recovered, json_copy_fields,
  entity_key, key_parts, lookup,
}
use ding.Base.Ensures.{Ensures}
use ding.Condition.Routing.{route}
use ding.Condition.Targets.{Routed, route-Routed}
use ding.Condition.Model.{State, Transition, Evaluator, Runtime, gt}
use ding.Condition.Evaluate.{evaluate, observe, matches_all, observed_key}
use ding.Condition.Compare.{compare_value, number_of}
use ding.Condition.Numeric.{compare_number}
use ding.Condition.Emit.{emit, message_of}
use ding.Condition.Evaluate.Total.{Accepted, evaluate-total}
use ding.Condition.Invariant.{Inv, evaluate-Inv}
use ding.Condition.Lifecycle.{status, replay, count, is_firing, is_recovered, open_count}
use ding.Condition.Events.{Sound, evaluate-Sound}
use ding.Condition.Run.{run, run-replay, run-balance}
use ding.Condition.Policy.{known_step, unknown_step, policy_step}
use ding.Condition.Predicate.{predicate}

-- float64 by the natural numbers, which serves where no value is negative or fractional.
abbrev pub naturals : Floats ℕ
naturals = record {
  ltb = ltb;
  eqb = ◌==◌;
  add = ◌+◌;
  div = ◌/◌;
  minimum = min;
  maximum = max;
  of_int = pos_part;
  nan = 0;
  is_nan = λ _. false;
  is_inf = λ _. false;
  parse = λ _. none;
}

abbrev plain : Runtime ℕ
plain = record {
  floats = naturals;
  encode_parts = λ _. some "[]";
  encode_scalar = λ _. some "0";
  identity = λ watch revision entity kind sequence. watch;
  execute = λ kind v fields. ([], true);
}

abbrev latency : Evaluator ℕ
latency = record {
  watch_id = "latency";
  revision = "r1";
  group_by = [];
  match = end;
  has_message = false;
  field = "ms";
  operator = gt;
  value = float64 300;
  missing_for = none;
  dedup_for = 0;
  is_level = false;
  consecutive = 1;
  recover_after = 1;
  max_samples = 10;
  expression = none;
  max_window = 0;
  interval = 0;
  max_gap = 0;
}

abbrev fresh : State ℕ
fresh = record {
  waiting_reason = "";
  baseline_sequence = 0;
  incident_event = "";
  health_event = "";
  fresh_sequence = 0;
  missing_at = 0;
  entity = "";
  is_open = false;
  matches = 0;
  recoveries = 0;
  last_at = 0;
  last_fired = 0;
  last_sequence = 0;
  source_unhealthy = false;
  samples = [];
  overflow_until = 0;
  clock_window_until = 0;
  evidence = [];
  baseline = "";
  seen = [];
}

abbrev sample : ℕ → ℕ → ℕ → Observation ℕ
sample sequence at ms = record {
  entity = "";
  deadline = none;
  sequence = sequence;
  accepted_at = at;
  fields = field "ms" (float64 ms) end;
  health = healthy;
  detail = "";
}

abbrev history : List (Observation ℕ × ℕ)
history = (sample 1 10 500, 10) ∷ (sample 2 20 100, 20) ∷ []

-- The history evaluated: its line names all that a test of it computes with.
evaluated : State ℕ × List (Event ℕ)
unfolding run evaluate observe predicate unknown_step known_step policy_step entity_key key_parts
    matches_all lookup compare_value number_of compare_number emit message_of json_copy_fields
evaluated = run plain latency fresh history

history_kinds : map (λ (e : Event ℕ). e.kind) evaluated.1 ≡ firing ∷ recovered ∷ []
unfolding evaluated
history_kinds = refl

fields_copied : json_copy_fields naturals (sample 1 10 500).fields ≡ some (sample 1 10 500).fields
unfolding json_copy_fields
fields_copied = refl

first-Accepted : Accepted plain latency (sample 1 10 500) 10 fresh "[]"
unfolding observed_key entity_key key_parts
first-Accepted = record {
  timed = omega arith;
  accepted = refl;
  later = omega arith;
  keyed = refl;
  same_entity = inl refl;
}

evaluate-total_example :
    (t : Transition ℕ) × (evaluate plain latency (sample 1 10 500) 10 fresh ≡ ok t)
evaluate-total_example =
    evaluate-total plain latency (sample 1 10 500) 10 fresh "[]" refl fields_copied first-Accepted

-- What the first observation gives.
first : (t : Transition ℕ) × (evaluate plain latency (sample 1 10 500) 10 fresh ≡ ok t)
first =
    evaluate-total plain latency (sample 1 10 500) 10 fresh "[]" refl fields_copied first-Accepted

fresh-Inv : Inv latency fresh
fresh-Inv = ground arith

evaluate-Inv_example : Inv latency first.0.state × (first.0.state.last_sequence ≡ 1)
evaluate-Inv_example =
    evaluate-Inv plain latency (sample 1 10 500) 10 fresh first.0 fresh-Inv first.1

evaluate-Sound_example :
    All (Sound plain latency (sample 1 10 500) 10 first.0.state.entity) first.0.events
evaluate-Sound_example = evaluate-Sound plain latency (sample 1 10 500) 10 fresh first.0 first.1

run-replay_example :
    replay (status fresh) (run plain latency fresh history).1
    ≡ some (status (run plain latency fresh history).0)
run-replay_example = run-replay plain latency fresh history (inl refl)

run-balance_example :
    count is_firing (run plain latency fresh history).1 + open_count (status fresh)
    ≡ count is_recovered (run plain latency fresh history).1
      + open_count (status (run plain latency fresh history).0)
run-balance_example = run-balance plain latency fresh history (inl refl)

route-Routed_example :
    Ensures
      (Routed plain latency 10 ("a" ∷ "b" ∷ []) (sample 1 10 500))
      (route plain latency ("a" ∷ "b" ∷ []) (sample 1 10 500))
route-Routed_example = route-Routed plain latency 10 ("a" ∷ "b" ∷ []) (sample 1 10 500)
