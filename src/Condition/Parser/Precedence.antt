-- ===== src/Condition/Parser/Precedence.antt =====
-- The tree that the parser builds from conjunctions joined by OR.
use ding.Base.{
  ℕ, zero, suc, ◌+◌, ◌≤◌, ◌≡◌, refl, ap, ◌∙◌, String, List, [], ◌∷◌, length, All, Result, ok, ◌>>=◌,
  arith,
}
use ding.Condition.Numeric.{Atom, Expr, leaf, compound, and, or}
use ding.Condition.Parser.{
  Token, atom, and_token, or_token, Parsed, leaf_id, id_after, parsed_leaf, parsed_atom, parse_atom,
  and_loop, parse_and_expr, or_loop, parse_expr,
}

-- A conjunction of one text and more.
pub record Group : Type 0 where
  pub head : String
  pub others : List String

unfoldable pub print_and : List String → List Token → List Token
print_and [] ts = ts
print_and (s ∷ ss) ts = and_token ∷ atom s ∷ print_and ss ts

unfoldable pub print_group : Group → List Token → List Token
unfolding print_and
print_group g ts = atom g.head ∷ print_and g.others ts

unfoldable pub print_or : List Group → List Token
unfolding print_group
print_or [] = []
print_or (g ∷ gs) = or_token ∷ print_group g (print_or gs)

module _ {F : Type 0} (condition : String → Atom F) where
  unfoldable pub and_tree : Parsed F → List String → Parsed F
  and_tree p [] = p
  and_tree p (s ∷ ss) =
      and_tree
        (record p {
          expr = compound and p.expr (leaf (condition s) (leaf_id (condition s) p.next_id));
          next_id = id_after (condition s) p.next_id;
        })
        ss

  unfoldable pub group_tree : Group → List Token → ℕ → Parsed F
  unfolding and_tree
  group_tree g ts id = and_tree (parsed_leaf (condition g.head) ts id) g.others

  unfoldable pub or_tree : Expr F → ℕ → List Group → Parsed F
  unfolding group_tree print_or
  or_tree left id [] = record { expr = left; rest = []; next_id = id }
  or_tree left id (g ∷ gs) =
      let t = group_tree g (print_or gs) id in or_tree (compound or left t.expr) t.next_id gs

  and_tree-rest : (p : Parsed F) (ss : List String) → (and_tree p ss).rest ≡ p.rest
  unfolding and_tree
  and_tree-rest p [] = refl
  and_tree-rest p (s ∷ ss) =
      and_tree-rest
        (record p {
          expr = compound and p.expr (leaf (condition s) (leaf_id (condition s) p.next_id));
          next_id = id_after (condition s) p.next_id;
        })
        ss

  group_tree-rest : (g : Group) (ts : List Token) (id : ℕ) → (group_tree g ts id).rest ≡ ts
  unfolding group_tree parsed_leaf
  group_tree-rest g ts id = and_tree-rest (parsed_leaf (condition g.head) ts id) g.others

  module _ (parse_condition : String → Result (Atom F))
      (atom_error : String → String → String) where
    abbrev pub Reads : String → Type 0
    Reads s = parse_condition s ≡ ok (condition s)

    parse_atom-Reads :
        (s : String) (ts : List Token) (id : ℕ)
        → Reads s
        → parse_atom parse_condition atom_error (atom s ∷ ts) id
          ≡ ok (parsed_leaf (condition s) ts id)
    unfolding parse_atom parsed_atom
    parse_atom-Reads s ts id h = rw h refl

    and_loop-or :
        (n : ℕ) (left : Expr F) (gs : List Group) (id : ℕ)
        → and_loop parse_condition atom_error n left (print_or gs) id
          ≡ ok (record { expr = left; rest = print_or gs; next_id = id })
    unfolding and_loop print_or
    and_loop-or zero left gs id = refl
    and_loop-or (suc n) left [] id = refl
    and_loop-or (suc n) left (g ∷ gs) id = refl

    and_loop-print :
        (n : ℕ) (left : Expr F) (ss : List String) (gs : List Group) (id : ℕ)
        → length ss ≤ n
        → All Reads ss
        → and_loop parse_condition atom_error n left (print_and ss (print_or gs)) id
          ≡ ok (and_tree (record { expr = left; rest = print_or gs; next_id = id }) ss)
    unfolding and_loop print_and and_tree parsed_leaf
    and_loop-print n left [] gs id l h = and_loop-or n left gs id
    and_loop-print zero left (s ∷ ss) gs id l h = ground arith
    and_loop-print (suc n) left (s ∷ ss) gs id l h =
        ap
          (λ m. m >>= (λ r.
            and_loop parse_condition atom_error n (compound and left r.expr) r.rest r.next_id))
          (parse_atom-Reads s (print_and ss (print_or gs)) id h.0)
        ∙ and_loop-print n (compound and left (leaf (condition s) (leaf_id (condition s) id))) ss gs
            (id_after (condition s) id) (omega (arith, l)) h.1

    length-print_and :
        (ss : List String) (ts : List Token) → length ss + length ts ≤ length (print_and ss ts)
    unfolding print_and
    length-print_and [] ts = omega arith
    length-print_and (s ∷ ss) ts = omega (arith, length-print_and ss ts)

    abbrev pub ReadsGroup : Group → Type 0
    ReadsGroup g = Reads g.head × All Reads g.others

    parse_and_expr-print :
        (g : Group) (gs : List Group) (id : ℕ)
        → ReadsGroup g
        → parse_and_expr parse_condition atom_error (print_group g (print_or gs)) id
          ≡ ok (group_tree g (print_or gs) id)
    unfolding parse_and_expr print_group group_tree parsed_leaf
    parse_and_expr-print g gs id h =
        ap
          (λ m.
            m
            >>= (λ r. and_loop parse_condition atom_error (length r.rest) r.expr r.rest r.next_id))
          (parse_atom-Reads g.head (print_and g.others (print_or gs)) id h.0)
        ∙ and_loop-print (length (print_and g.others (print_or gs)))
            (leaf (condition g.head) (leaf_id (condition g.head) id)) g.others gs
            (id_after (condition g.head) id)
            (omega (arith, length-print_and g.others (print_or gs))) h.1

    or_loop-print :
        (n : ℕ) (left : Expr F) (gs : List Group) (id : ℕ)
        → length gs ≤ n
        → All ReadsGroup gs
        → or_loop parse_condition atom_error n left (print_or gs) id ≡ ok (or_tree left id gs)
    unfolding or_loop print_or or_tree
    or_loop-print zero left [] id l h = refl
    or_loop-print (suc n) left [] id l h = refl
    or_loop-print zero left (g ∷ gs) id l h = ground arith
    or_loop-print (suc n) left (g ∷ gs) id l h =
        let t = group_tree g (print_or gs) id in
        ap
          (λ m. m >>= (λ r.
            or_loop parse_condition atom_error n (compound or left r.expr) r.rest r.next_id))
          (parse_and_expr-print g gs id h.0)
        ∙ ap (λ ts. or_loop parse_condition atom_error n (compound or left t.expr) ts t.next_id)
            (group_tree-rest g (print_or gs) id)
        ∙ or_loop-print n (compound or left t.expr) gs t.next_id (omega (arith, l)) h.1

    length-print_group : (g : Group) (ts : List Token) → length ts ≤ length (print_group g ts)
    unfolding print_group
    length-print_group g ts = omega (arith, length-print_and g.others ts)

    length-print_or : (gs : List Group) → length gs ≤ length (print_or gs)
    unfolding print_or
    length-print_or [] = omega arith
    length-print_or (g ∷ gs) = omega (arith, length-print_group g (print_or gs), length-print_or gs)

    pub parse_expr-print :
        (g : Group) (gs : List Group)
        → All ReadsGroup (g ∷ gs)
        → parse_expr parse_condition atom_error (print_group g (print_or gs)) 0
          ≡ ok (
              or_tree (group_tree g (print_or gs) 0).expr (group_tree g (print_or gs) 0).next_id gs)
    unfolding parse_expr
    parse_expr-print g gs h =
        let t = group_tree g (print_or gs) 0 in
        ap
          (λ m.
            m >>= (λ r. or_loop parse_condition atom_error (length r.rest) r.expr r.rest r.next_id))
          (parse_and_expr-print g gs 0 h.0)
        ∙ ap (λ ts. or_loop parse_condition atom_error (length ts) t.expr ts t.next_id)
            (group_tree-rest g (print_or gs) 0)
        ∙ or_loop-print (length (print_or gs)) t.expr gs t.next_id (length-print_or gs) h.1
