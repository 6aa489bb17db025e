-- ===== src/Watch/Types.antt =====
-- Observations and events, and the identity of a grouped entity.
use ding.Base.{
  ℕ, String, Bool, true, false, Option, none, some, List, [], ◌∷◌, Result, ok, err, ◌>>=◌, str_eq,
  if◌then◌else◌,
}
use ding.Watch.Values.{Value, null, array, object, Fields, lookup}

-- `Observation.Health`; `unknown` stands for every text that is none of the other six.
pub data Health : Type 0 where
  healthy unknown unchanged gap timer clock waiting : Health

abbrev pub is_healthy : Health → Bool
is_healthy healthy = true
is_healthy _ = false

abbrev pub is_timer : Health → Bool
is_timer timer = true
is_timer _ = false

abbrev pub is_unchanged : Health → Bool
is_unchanged unchanged = true
is_unchanged _ = false

-- A sequence is an int64 of which Evaluate refuses those below 1: 0 stands for all of them.
pub record Observation (F : Type 0) : Type 0 where
  pub entity : String
  pub deadline : Option ℕ
  pub sequence : ℕ
  pub accepted_at : ℕ
  pub fields : Fields F
  pub health : Health
  pub detail : String

-- The event types that the evaluator emits.
pub data Kind : Type 0 where
  firing recovered changed new_event source_error source_recovered sampling_gap : Kind

pub record Event (F : Type 0) : Type 0 where
  pub id : String
  pub watch_id : String
  pub revision : String
  pub entity : String
  pub kind : Kind
  pub at : ℕ
  pub message : String
  pub fields : Fields F
  pub evidence : List ℕ

unfoldable pub detail_or_default : {F : Type 0} → Observation F → String
detail_or_default o = if str_eq o.detail "" then "source_unknown" else o.detail

-- One entry of an entity key.
pub record Part (F : Type 0) : Type 0 where
  pub name : String
  pub present : Bool
  pub value : Value F

module _ {F : Type 0} where
  abbrev is_scalar : Value F → Bool
  is_scalar (array xs) = false
  is_scalar (object xs) = false
  is_scalar _ = true

  -- A key that is missing reads as nil.
  group_part : String → Fields F → Part F
  group_part f fields = elim (lookup f fields) [
    | none ↦ record { name = f; present = false; value = null }
    | some v ↦ record { name = f; present = true; value = v }
  ]

  unfoldable pub key_parts : List String → Fields F → Result (List (Part F))
  unfolding group_part
  key_parts [] fields = ok []
  key_parts (f ∷ fs) fields =
      let p = group_part f fields in
      let rest = key_parts fs fields in
      if is_scalar p.value
      then rest >>= (λ ps. ok (p ∷ ps))
      else err "group fields must be scalar values"

  -- `encode` is json.Marshal on the parts.
  unfoldable pub entity_key :
      (List (Part F) → Option String) → List String → Fields F → Result String
  entity_key encode group_by fields = do
    parts ← key_parts group_by fields
    elim (encode parts) [ none ↦ err "json" | some k ↦ ok k ]
