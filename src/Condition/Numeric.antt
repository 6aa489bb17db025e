-- ===== src/Condition/Numeric.antt =====
-- internal/condition/numeric.go: comparisons and the expression tree that the parser builds.
use ding.Base.{
  ℕ, Bool, false, ◌&&◌, ◌||◌, Option, none, some, List, [], ◌∷◌, ◌++◌, if◌then◌else◌, not,
}
use ding.Base.Int.{ℤ, int_eq}
use ding.Watch.{Floats}

-- The six operators that the expression syntax admits.
pub data Comparison : Type 0 where
  greater greater_equal less less_equal equal not_equal : Comparison

pub data Function : Type 0 where
  avg max min count sum : Function

pub data Connective : Type 0 where
  and or : Connective

-- A parsed condition (`Condition` in the source).
pub record Atom (F : Type 0) : Type 0 where
  pub windowed : Bool
  pub run_bounded : Bool
  pub op : Comparison
  pub literal : F
  pub function : Function
  pub window : ℕ

-- `leafExpr` and `compoundExpr`; the identifier of a leaf without a window is -1.
pub data Expr (F : Type 0) : Type 0 where
  leaf : Atom F → ℤ → Expr F
  compound : Connective → Expr F → Expr F → Expr F

pub record Window : Type 0 where
  pub id : ℤ
  pub function : Function
  pub window : ℕ
  pub run_bounded : Bool

-- `aggregates` and `available` are the maps of `Context`; an absent identifier is not available.
pub record Context (F : Type 0) : Type 0 where
  pub value : F
  pub aggregates : List (ℤ × F)

module _ {F : Type 0} where
  unfoldable pub aggregate_of : ℤ → List (ℤ × F) → Option F
  aggregate_of i [] = none
  aggregate_of i ((j, x) ∷ rest) = if int_eq j i then some x else aggregate_of i rest

  unfoldable pub leaf_windows : Atom F → ℤ → List Window
  leaf_windows a i =
      if a.windowed
      then record { id = i; function = a.function; window = a.window; run_bounded = a.run_bounded }
        ∷ []
      else []

  unfoldable pub windows : Expr F → List Window
  unfolding leaf_windows
  windows (leaf a i) = leaf_windows a i
  windows (compound c l r) = windows l ++ windows r

module _ {F : Type 0} (fl : Floats F) where
  open fl use {ltb, eqb}

  unfoldable pub compare_number : F → Comparison → F → Bool
  compare_number a greater b = ltb b a
  compare_number a greater_equal b = ltb b a || eqb a b
  compare_number a less b = ltb a b
  compare_number a less_equal b = ltb a b || eqb a b
  compare_number a equal b = eqb a b
  compare_number a not_equal b = not (eqb a b)

  compare_available : Option F → Comparison → F → Bool
  unfolding compare_number
  compare_available none op b = false
  compare_available (some a) op b = compare_number a op b

  unfoldable pub eval_leaf : Atom F → ℤ → Context F → Bool
  unfolding compare_available compare_number
  eval_leaf a i ctx =
      if a.windowed
      then compare_available (aggregate_of i ctx.aggregates) a.op a.literal
      else compare_number ctx.value a.op a.literal

  unfoldable pub eval : Expr F → Context F → Bool
  unfolding eval_leaf
  eval (leaf a i) ctx = eval_leaf a i ctx
  eval (compound and l r) ctx = eval l ctx && eval r ctx
  eval (compound or l r) ctx = eval l ctx || eval r ctx
