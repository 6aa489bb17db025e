-- ===== src/Condition/Parser/Examples.antt =====
-- "high AND low OR wide", with the value 5 and no average yet.
use ding.Base.{ℕ, ◌≡◌, refl, String, false, [], ◌∷◌, Result, ok, err, str_eq, if◌then◌else◌}
use ding.Condition.Examples.{naturals}
use ding.Condition.Numeric.{Atom, greater, less, avg, Context, eval}
use ding.Condition.Parser.{Parsed, parse_expr}
use ding.Condition.Parser.Precedence.{Group, print_group, print_or}
use ding.Condition.Parser.Meaning.{some_holds, parse_expr-meaning}

abbrev condition : String → Atom ℕ
condition s = record {
  windowed = str_eq s "wide";
  run_bounded = false;
  op = if str_eq s "low" then less else greater;
  literal = 3;
  function = avg;
  window = 60;
}

abbrev parse_condition : String → Result (Atom ℕ)
parse_condition s =
    if str_eq s "high"
    then ok (condition "high")
    else if str_eq s "low"
    then ok (condition "low")
    else if str_eq s "wide"
    then ok (condition "wide")
    else err "unrecognized condition syntax"

abbrev unexplained : String → String → String
unexplained s e = e

abbrev high_and_low : Group
high_and_low = record { head = "high"; others = "low" ∷ [] }

abbrev wide : Group
wide = record { head = "wide"; others = [] }

abbrev five : Context ℕ
five = record { value = 5; aggregates = [] }

parse_expr-meaning_example :
    (p : Parsed ℕ) × ((parse_expr parse_condition unexplained
          (print_group high_and_low (print_or (wide ∷ [])))
          0
        ≡ ok p)
      × (eval naturals p.expr five
          ≡ some_holds condition naturals five (high_and_low ∷ wide ∷ []) 0))
parse_expr-meaning_example =
    parse_expr-meaning condition naturals five parse_condition unexplained high_and_low (wide ∷ [])
      ((refl, (refl, tt)), ((refl, tt), tt))
