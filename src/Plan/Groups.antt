-- ===== src/Plan/Groups.antt =====
-- internal/plan/compile.go: the part of `Compile` on the grouping fields of a watch.
use ding.Base.{
  String, Bool, false, ◌||◌, not, List, [], ◌∷◌, Option, none, some, length, str_eq, ltb, Result,
  ok, err, ◌>>=◌, if◌then◌else◌,
}
use ding.Condition.Routing.{sort_strings}
use ding.Plan.Names.{is_field_name}
use ding.Plan.Durations.{Check}

abbrev pub is_repeated : Option String → String → Bool
is_repeated none s = false
is_repeated (some p) s = str_eq p s

-- The loop, with the field before.
unfoldable pub fields_checked : Option String → List String → Check
unfolding is_field_name
fields_checked before [] = ok tt
fields_checked before (g ∷ gs) =
    let rest = fields_checked (some g) gs in
    if not (is_field_name g) || is_repeated before g
    then err "invalid/duplicate grouping field"
    else rest

unfoldable pub compile_groups : List String → Result (List String)
unfolding fields_checked sort_strings
compile_groups gs =
    if ltb 16 (length gs)
    then err "too many grouping fields"
    else fields_checked none (sort_strings gs) >>= (λ checked. ok (sort_strings gs))
