-- ===== src/Condition/Compare.antt =====
-- internal/condition/transition.go: `Number`, `Compare` and `Aggregate`.
use ding.Base.{
  String, Bool, true, false, not, ◌&&◌, ◌||◌, Option, none, some, List, [], ◌∷◌, if◌then◌else◌,
  length,
}
use ding.Base.Int.{pos}
use ding.Watch.{
  Floats, Value, null, boolean, float64, int, int64, number, text, array, object, deep_equal,
}
use ding.Condition.Numeric.{
  Comparison, greater, greater_equal, less, less_equal, equal, not_equal, Function, avg, max, min,
  count, sum, compare_number,
}
use ding.Condition.Model.{Operator, eq, ne, gt, gte, lt, lte, changed, new_event}

-- The first two results of `predicate` and its reason.
pub data Verdict : Type 0 where
  unknown : String → Verdict
  known : Bool → Verdict

abbrev pub is_signal : Operator → Bool
is_signal changed = true
is_signal new_event = true
is_signal _ = false

unfoldable pub numeric_operator : Operator → Option Comparison
numeric_operator eq = some equal
numeric_operator ne = some not_equal
numeric_operator gt = some greater
numeric_operator gte = some greater_equal
numeric_operator lt = some less
numeric_operator lte = some less_equal
numeric_operator _ = none

-- `reflect.TypeOf` on two values.
same_type : {F : Type 0} → Value F → Value F → Bool
same_type null null = true
same_type (boolean a) (boolean b) = true
same_type (float64 a) (float64 b) = true
same_type (int a) (int b) = true
same_type (int64 a) (int64 b) = true
same_type (number a) (number b) = true
same_type (text a) (text b) = true
same_type (array a) (array b) = true
same_type (object a) (object b) = true
same_type _ _ = false

is_null : {F : Type 0} → Value F → Bool
is_null null = true
is_null _ = false

module _ {F : Type 0} (fl : Floats F) where
  open fl use {of_int, parse, is_nan, is_inf}

  finite : F → Option F
  finite x = if is_nan x || is_inf x then none else some x

  -- The number of a value, if it has a finite one.
  unfoldable pub number_of : Value F → Option F
  unfolding finite
  number_of (float64 x) = finite x
  number_of (int n) = finite (of_int n)
  number_of (int64 n) = finite (of_int n)
  number_of (number s) = elim (parse s) [ none ↦ none | some x ↦ finite x ]
  number_of _ = none

  compare_typed : Value F → Operator → Value F → Verdict
  unfolding same_type is_null
  compare_typed actual op want =
      if not (is_null want) && not (same_type actual want)
      then unknown "wrong_field_type"
      else elim op [
        | eq ↦ known (deep_equal fl actual want)
        | ne ↦ known (not (deep_equal fl actual want))
        | _ ↦ unknown "wrong_field_type"
      ]

  compare_numeric : Option F → Option Comparison → F → Verdict
  compare_numeric none op b = unknown "wrong_field_type"
  compare_numeric (some a) none b = unknown "wrong_field_type"
  compare_numeric (some a) (some op) b = known (compare_number fl a op b)

  -- `Compare`, with the reason that `predicate` gives where the comparison is not known.
  unfoldable pub compare_value : Value F → Operator → Value F → Verdict
  unfolding compare_typed compare_numeric numeric_operator
  compare_value actual op want = elim (number_of want) [
    | some b ↦ compare_numeric (number_of actual) (numeric_operator op) b
    | none ↦ compare_typed actual op want
  ]

  fold_values : (F → F → F) → F → List F → F
  fold_values f x [] = x
  fold_values f x (y ∷ ys) = fold_values f (f x y) ys

  length_float : List F → F
  length_float xs = of_int (pos (length xs))

  -- No values give NaN.
  unfoldable pub aggregate : Function → List F → F
  unfolding fold_values length_float
  aggregate f [] = fl.nan
  aggregate avg (x ∷ xs) = fl.div (fold_values fl.add x xs) (length_float (x ∷ xs))
  aggregate max (x ∷ xs) = fold_values fl.maximum x xs
  aggregate min (x ∷ xs) = fold_values fl.minimum x xs
  aggregate count (x ∷ xs) = length_float (x ∷ xs)
  aggregate sum (x ∷ xs) = fold_values fl.add x xs
