-- ===== src/Condition/Model.antt =====
-- internal/condition/transition.go: `State`, `Transition` and `Evaluator`.
use ding.Base.{ℕ, String, Bool, Option, List}
use ding.Watch.{Floats, Value, Fields, Kind, Event, Part}
use ding.Condition.Numeric.{Expr}

pub data Operator : Type 0 where
  eq ne gt gte lt lte changed new_event other : Operator

pub record Sample (F : Type 0) : Type 0 where
  pub at : ℕ
  pub value : F
  pub sequence : ℕ

-- `baseline` is the encoded value, empty when there is none; `seen` lists the map of expiries.
pub record State (F : Type 0) : Type 0 where
  pub waiting_reason : String
  pub baseline_sequence : ℕ
  pub incident_event : String
  pub health_event : String
  pub fresh_sequence : ℕ
  pub missing_at : ℕ
  pub entity : String
  pub is_open : Bool
  pub matches : ℕ
  pub recoveries : ℕ
  pub last_at : ℕ
  pub last_fired : ℕ
  pub last_sequence : ℕ
  pub source_unhealthy : Bool
  pub samples : List (Sample F)
  pub overflow_until : ℕ
  pub clock_window_until : ℕ
  pub evidence : List ℕ
  pub baseline : String
  pub seen : List (String × ℕ)

pub record Transition (F : Type 0) : Type 0 where
  pub state : State F
  pub events : List (Event F)
  pub known : Bool
  pub matched : Bool
  pub reason : String

-- A compiled definition with what `New` derives from it. Durations are nanoseconds, which the
-- compiler keeps at or above 0; `missing_for` is `none` when the definition leaves it empty.
pub record Evaluator (F : Type 0) : Type 0 where
  pub watch_id : String
  pub revision : String
  pub group_by : List String
  pub match : Fields F
  pub has_message : Bool
  pub field : String
  pub operator : Operator
  pub value : Value F
  pub missing_for : Option ℕ
  pub dedup_for : ℕ
  pub is_level : Bool
  pub consecutive : ℕ
  pub recover_after : ℕ
  pub max_samples : ℕ
  pub expression : Option (Expr F)
  pub max_window : ℕ
  pub interval : ℕ
  pub max_gap : ℕ

-- What the evaluator calls outside the repository: float64, encoding/json on scalars, the SHA-256
-- digest of an event's identity (watch, revision, entity, type, sequence), and text/template, which
-- gives the chunks that it writes and whether it succeeds.
pub record Runtime (F : Type 0) : Type 0 where
  pub floats : Floats F
  pub encode_parts : List (Part F) → Option String
  pub encode_scalar : Value F → Option String
  pub identity : String → String → String → Kind → ℕ → String
  pub execute : Kind → Value F → Fields F → List String × Bool
