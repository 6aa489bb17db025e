-- ===== src/Runtime/Examples.antt =====
-- A watch on a latency, its first input, and the theorems at them.
use ding.Base.{
  ℕ, suc, ◌+◌, ◌/◌, ◌≡◌, ◌≤◌, ◌<◌, refl, true, false, List, [], ◌∷◌, none, some, ltb, ◌==◌, arith,
  ok, min, max, keep,
}
use ding.Base.Int.{pos_part}
use ding.Base.Maps.{find, put}
use ding.Watch.{
  Floats, Observation, healthy, float64, end, field, key_parts, entity_key, lookup,
  json_copy_fields,
}
use ding.Condition.Model.{State, Evaluator, Runtime, gt}
use ding.Condition.Evaluate.{evaluate, observe, matches_all}
use ding.Condition.Predicate.{predicate}
use ding.Condition.Policy.{known_step, unknown_step, policy_step}
use ding.Condition.Compare.{compare_value, number_of}
use ding.Condition.Numeric.{compare_number}
use ding.Condition.Emit.{emit, message_of}
use ding.Condition.Routing.{route}
use ding.Runtime.Tables.{
  Db, WatchRecord, running, paused, receipt, checkpoint, append_observation, append_event,
  save_replay, lifecycle,
}
use ding.Outbox.Rows.{Store, first, any}
use ding.Runtime.Emission.{App}
use ding.Runtime.Cache.{loaded, fresh_cache}
use ding.Runtime.Direct.{touch, drop, fan_out}
use ding.Runtime.Refinement.{Same, run_cached, run_direct, cache-table}
use ding.Runtime.Control.{
  Caller, LifecycleRequest, pause, resume, kept, control, move, changed_to, restarted,
  next_generation, with_cancel,
}
use ding.Runtime.History.{Call, accepting, controlling, run_calls, Continues, run_calls-Continues}
use ding.Runtime.Superseded.{Refused, superseded-Refused}
use ding.Runtime.Accept.{accept, receipt_ttl}
use ding.Runtime.Accept.Input.{Batch, Accepted}
use ding.Runtime.Accept.Evaluation.{empty_state}
use ding.Runtime.Accept.Invariant.{Valid}
use ding.Runtime.Accept.Preserved.{accept-Valid}
use ding.Runtime.Accept.Retry.{accept-retry}
use ding.Runtime.Accept.Ranges.{accept-range}

abbrev naturals : Floats ℕ
naturals = record {
  ltb = ltb;
  eqb = ◌==◌;
  add = ◌+◌;
  div = ◌/◌;
  minimum = min;
  maximum = max;
  of_int = pos_part;
  nan = 0;
  is_nan = λ _. false;
  is_inf = λ _. false;
  parse = λ _. none;
}

abbrev plain : Runtime ℕ
plain = record {
  floats = naturals;
  encode_parts = λ _. some "[]";
  encode_scalar = λ _. some "0";
  identity = λ watch revision entity kind sequence. watch;
  execute = λ kind v fields. ([], true);
}

abbrev latency : Evaluator ℕ
latency = record {
  watch_id = "latency";
  revision = "r1";
  group_by = [];
  match = end;
  has_message = false;
  field = "ms";
  operator = gt;
  value = float64 300;
  missing_for = none;
  dedup_for = 0;
  is_level = false;
  consecutive = 1;
  recover_after = 1;
  max_samples = 10;
  expression = none;
  max_window = 0;
  interval = 0;
  max_gap = 0;
}

abbrev app : App ℕ
app = record {
  max_bytes = 1000;
  max_pending = 10;
  closing = false;
  runtime = plain;
  decimal = λ n. "0";
  encoded_size = λ name o. some 20;
  bytes = λ db. 100;
  next_poll = λ now every id. now + every;
  stored_state = some;
  destination = λ ref. none;
  render = λ type e. none;
}

abbrev given : WatchRecord ℕ
given = record {
  lifetime = "l";
  plan = record {
    revision = "r1";
    evaluator = latency;
    max_outputs = 100;
    max_bytes = 1024;
    max_entities = 3;
    every = 5;
    targets = [];
    logs_retention = none;
  };
  generation = 1;
  status = running;
  next_at = 0;
  cursor = "";
  last_input_at = 0;
  last_error = "";
}

abbrev no_deliveries : Store
no_deliveries = record { rows = []; streams = []; backoffs = []; log = []; next_id = 1 }

abbrev started : Db ℕ
started = record {
  watch = given;
  entities = [];
  timers = [];
  receipts = [];
  pushes = [];
  inputs = [];
  last_sequence = 0;
  events = [];
  replays = [];
  outbox = no_deliveries;
}

abbrev slow : Observation ℕ
slow = record {
  entity = "";
  deadline = none;
  sequence = 0;
  accepted_at = 0;
  fields = field "ms" (float64 500) end;
  health = healthy;
  detail = "";
}

abbrev batch : Batch ℕ
batch = record {
  expected_cursor = none;
  fresh_until = 0;
  entity = "";
  deadline = 0;
  observations = slow ∷ [];
  cursor = "";
  retry_at = 0;
}

-- The receipt of the first input.
abbrev first_receipt : Accepted
first_receipt = record { first = 1; last = 1; duplicate = false }

first_accepted : (accept app given batch "poll" none 10 10 started).0 ≡ ok first_receipt
unfolding accept receipt first checkpoint keep append_observation any route matches_all entity_key
    key_parts find evaluate observe predicate unknown_step known_step policy_step lookup
    compare_value number_of compare_number emit message_of json_copy_fields put append_event
    save_replay
first_accepted = refl

abbrev halted : WatchRecord ℕ
halted = record given { status = paused }

abbrev halted_db : Db ℕ
halted_db = record started { watch = halted }

started-Valid : Valid latency 3 started
started-Valid = record { unique = tt; good = tt; bounded = omega arith }

cache-table_example :
    Same
      (run_cached 2
        (touch "a" (empty_state "a") ∷ fan_out ∷ drop "a" ∷ [])
        (loaded ("a" ∷ []) (fresh_cache, started)))
      (run_direct 2 (touch "a" (empty_state "a") ∷ fan_out ∷ drop "a" ∷ []) started.entities)
cache-table_example =
    cache-table 2 (touch "a" (empty_state "a") ∷ fan_out ∷ drop "a" ∷ []) ("a" ∷ []) started tt

accept-Valid_example : Valid latency 3 (accept app given batch "poll" none 10 10 started).1
accept-Valid_example =
    accept-Valid app given batch "poll" none 10 10 (λ s t e. ground (arith, e)) (omega arith)
      started started-Valid

accept-retry_example :
    accept app given batch "poll" none 20 20 (accept app given batch "poll" none 10 10 started).1
    ≡ (
      ok (record { first = 1; last = 1; duplicate = true }),
      (accept app given batch "poll" none 10 10 started).1,
    )
unfolding receipt_ttl
accept-retry_example =
    accept-retry app given batch "poll" 10 10 20 20 started first_receipt first_accepted refl tt
      refl (omega arith)

accept-range_example :
    (1 ≡ suc 0) × (1 ≡ (accept app given batch "poll" none 10 10 started).1.last_sequence) × (1 ≤ 1)
accept-range_example =
    accept-range app given batch "poll" none 10 10 started first_receipt first_accepted refl tt

reads_back : (s t : State ℕ) → app.stored_state s ≡ some t → t ≡ s
reads_back s t e = ground (arith, e)

one_recovery : 0 < given.plan.evaluator.recover_after
one_recovery = omega arith

some_room : 0 < given.plan.max_entities
some_room = omega arith

abbrev operator : Caller
operator = record {
  may_manage = true;
  held = "";
  authorized = true;
  digest = λ watch revision kind generation at. kind;
}

abbrev pausing : LifecycleRequest
pausing = record {
  expected_generation = none;
  action = pause;
  expected = "";
  cancel_pending = false;
}

abbrev day : List (Call ℕ)
day =
    accepting given batch "poll" none 10 10
    ∷ controlling operator pausing 20
    ∷ controlling operator (record pausing { action = resume }) 30
    ∷ []

run_calls-Continues_example : Continues given.plan started (run_calls app day (kept started))
run_calls-Continues_example =
    run_calls-Continues app given.plan reads_back one_recovery some_room day started
      (refl, (tt, (tt, tt))) refl started-Valid

-- The watch after a pause.
abbrev paused_db : Db ℕ
paused_db = record started {
  watch = record given { status = paused; generation = 2; next_at = 20 };
  events = lifecycle "pause" "r1" "pause" 20 ∷ [];
}

superseded-Refused_example : Refused app given batch "poll" 30 30 paused_db
unfolding run_calls control move changed_to restarted next_generation append_event any with_cancel
superseded-Refused_example =
    superseded-Refused app given batch "poll" 30 30 given.plan reads_back one_recovery some_room
      (controlling operator pausing 20 ∷ []) started paused_db (tt, tt) refl started-Valid refl
      (λ p. cc) refl
