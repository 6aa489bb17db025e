-- ===== src/Condition/Signals.antt =====
-- internal/condition/signals.go `signal`: value changes and new provider events.
use Prim.Native.String.{len}
use ding.Base.{
  ℕ, ◌+◌, String, Bool, true, false, not, ◌&&◌, ◌||◌, Option, none, some, List, [], ◌∷◌, ltb, leb,
  if◌then◌else◌, str_eq, length, keep, length-keep-le, ◌≤◌,
}
use ding.Watch.{Value, null, boolean, float64, text}
use ding.Condition.Model.{State, Evaluator, Runtime}
use ding.Condition.Compare.{Verdict, unknown, known, number_of}

module _ {F : Type 0} (rt : Runtime F) where
  open rt use {floats, encode_scalar}

  -- What a change is measured on: numbers as float64, other scalars as they are.
  comparable : Value F → Option (Value F)
  comparable v = elim (number_of floats v) [
    | some x ↦ some (float64 x)
    | none ↦ elim v [
      | null ↦ some null
      | boolean b ↦ some (boolean b)
      | text t ↦ some (text t)
      | _ ↦ none
    ]
  ]

  encoded : Value F → Option String
  unfolding comparable
  encoded v = elim (comparable v) [ none ↦ none | some w ↦ encode_scalar w ]

  unfoldable pub signal_changed : State F → Value F → ℕ → State F × Verdict
  unfolding encoded
  signal_changed s v sequence = elim (encoded v) [
    | none ↦ (s, unknown "wrong_field_type")
    | some code ↦
        let differs = not (str_eq s.baseline "") && not (str_eq s.baseline code) in
        (
          record s {
            evidence =
                if differs && ltb 0 s.baseline_sequence then s.baseline_sequence ∷ [] else [];
            baseline = code;
            baseline_sequence = sequence;
          },
          known differs,
        )
  ]

-- `state.Seen`: the expiry of each known identifier.
unfoldable pub expiry_of : String → List (String × ℕ) → Option ℕ
expiry_of k [] = none
expiry_of k ((j, t) ∷ rest) = if str_eq j k then some t else expiry_of k rest

unfoldable pub is_live : ℕ → String × ℕ → Bool
is_live now (k, t) = ltb now t

-- The entries that have not expired.
unfoldable pub live : ℕ → List (String × ℕ) → List (String × ℕ)
live now = keep (is_live now)

pub length-live-le : (t : ℕ) (xs : List (String × ℕ)) → length (live t xs) ≤ length xs
unfolding live
length-live-le t xs = length-keep-le (is_live t) xs

module _ {F : Type 0} where
  -- `identifier` is the observed one; every entry left in `seen` is live.
  remember : Evaluator F → State F → String → ℕ → State F × Verdict
  remember ev s identifier now = elim (expiry_of identifier s.seen) [
    | some _ ↦ (s, known false)
    | none ↦
        if leb ev.max_samples (length s.seen)
        then (s, unknown "dedup_budget")
        else (record s { seen = (identifier, now + ev.dedup_for) ∷ s.seen }, known true)
  ]

  identifier_of : Value F → Option String
  identifier_of (text t) = if str_eq t "" || ltb 256 (len t) then none else some t
  identifier_of _ = none

  unfoldable pub signal_event : Evaluator F → State F → Value F → ℕ → State F × Verdict
  unfolding remember identifier_of
  signal_event ev s v now = elim (identifier_of v) [
    | none ↦ (s, unknown "event_id_must_be_a_nonempty_string_up_to_256_bytes")
    | some k ↦ remember ev (record s { seen = live now s.seen }) k now
  ]
