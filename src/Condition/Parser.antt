-- ===== src/Condition/Parser.antt =====
-- internal/condition/numeric.go: the parser from tokens to the expression tree. ParseCondition, which
-- matches regular expressions, and the text of an atom's error are parameters.
pub mod Precedence
pub mod Meaning
mod Examples
use ding.Base.{
  ℕ, zero, suc, String, Bool, List, [], ◌∷◌, length, Result, ok, err, ◌>>=◌, if◌then◌else◌,
}
use ding.Base.Int.{ℤ, pos, negsuc}
use ding.Condition.Numeric.{Atom, Expr, leaf, compound, and, or}

pub data Token : Type 0 where
  atom : String → Token
  and_token or_token : Token

-- A tree, the tokens after it (the position of `condParser`) and its next identifier.
pub record Parsed (F : Type 0) : Type 0 where
  pub expr : Expr F
  pub rest : List Token
  pub next_id : ℕ

unfoldable pub leaf_id : {F : Type 0} → Atom F → ℕ → ℤ
leaf_id a id = if a.windowed then pos id else negsuc 0

unfoldable pub id_after : {F : Type 0} → Atom F → ℕ → ℕ
id_after a id = if a.windowed then suc id else id

unfoldable pub parsed_leaf : {F : Type 0} → Atom F → List Token → ℕ → Parsed F
unfolding leaf_id id_after
parsed_leaf a ts id = record { expr = leaf a (leaf_id a id); rest = ts; next_id = id_after a id }

module _ {F : Type 0} (parse_condition : String → Result (Atom F))
    (atom_error : String → String → String) where
  unfoldable pub parsed_atom : String → Result (Atom F) → List Token → ℕ → Result (Parsed F)
  unfolding parsed_leaf
  parsed_atom s (ok a) ts id = ok (parsed_leaf a ts id)
  parsed_atom s (err e) ts id = err (atom_error s e)

  unfoldable pub parse_atom : List Token → ℕ → Result (Parsed F)
  unfolding parsed_atom
  parse_atom [] id = err "unexpected end of condition"
  parse_atom (atom s ∷ ts) id = parsed_atom s (parse_condition s) ts id
  parse_atom (and_token ∷ ts) id = err "unexpected operator without operand"
  parse_atom (or_token ∷ ts) id = err "unexpected operator without operand"

  -- The loop of parseAndExpr; a round takes two tokens.
  unfoldable pub and_loop : ℕ → Expr F → List Token → ℕ → Result (Parsed F)
  unfolding parse_atom
  and_loop (suc n) left (and_token ∷ ts) id =
      parse_atom ts id >>= (λ r. and_loop n (compound and left r.expr) r.rest r.next_id)
  and_loop n left ts id = ok (record { expr = left; rest = ts; next_id = id })

  unfoldable pub parse_and_expr : List Token → ℕ → Result (Parsed F)
  unfolding parse_atom and_loop
  parse_and_expr ts id =
      parse_atom ts id >>= (λ r. and_loop (length r.rest) r.expr r.rest r.next_id)

  unfoldable pub or_loop : ℕ → Expr F → List Token → ℕ → Result (Parsed F)
  unfolding parse_and_expr
  or_loop (suc n) left (or_token ∷ ts) id =
      parse_and_expr ts id >>= (λ r. or_loop n (compound or left r.expr) r.rest r.next_id)
  or_loop n left ts id = ok (record { expr = left; rest = ts; next_id = id })

  unfoldable pub parse_expr : List Token → ℕ → Result (Parsed F)
  unfolding parse_and_expr or_loop
  parse_expr ts id = parse_and_expr ts id >>= (λ r. or_loop (length r.rest) r.expr r.rest r.next_id)
