-- ===== src/Condition/Parser/Meaning.antt =====
-- AND binds tighter than OR: the meaning of the parser's tree.
use ding.Base.{
  ℕ, ◌≡◌, refl, ap, ◌∙◌, String, Bool, true, false, ◌&&◌, ◌||◌, List, [], ◌∷◌, All, Result, ok,
  arith,
}
use ding.Watch.{Floats}
use ding.Condition.Numeric.{Atom, Expr, leaf, compound, and, or, Context, eval}
use ding.Condition.Parser.{Token, Parsed, leaf_id, id_after, parsed_leaf, parse_expr}
use ding.Condition.Parser.Precedence.{
  Group, print_group, print_or, and_tree, group_tree, or_tree, ReadsGroup, parse_expr-print,
}

-- The meaning: identifiers count the conditions with a window from the left.
module _ {F : Type 0} (condition : String → Atom F) (fl : Floats F) (ctx : Context F) where
  abbrev holds_alone : String → ℕ → Bool
  holds_alone s id = eval fl (leaf (condition s) (leaf_id (condition s) id)) ctx

  unfoldable pub all_hold : List String → ℕ → Bool
  all_hold [] id = true
  all_hold (s ∷ ss) id = holds_alone s id && all_hold ss (id_after (condition s) id)

  unfoldable pub ids_after : List String → ℕ → ℕ
  ids_after [] id = id
  ids_after (s ∷ ss) id = ids_after ss (id_after (condition s) id)

  unfoldable pub some_holds : List Group → ℕ → Bool
  unfolding all_hold ids_after
  some_holds [] id = false
  some_holds (g ∷ gs) id =
      all_hold (g.head ∷ g.others) id || some_holds gs (ids_after (g.head ∷ g.others) id)

  and_assoc : (a b c : Bool) → ((a && b) && c) ≡ (a && (b && c))
  and_assoc a b c = ground arith

  or_assoc : (a b c : Bool) → ((a || b) || c) ≡ (a || (b || c))
  or_assoc a b c = ground arith

  eval-and_tree :
      (p : Parsed F) (ss : List String)
      → (eval fl (and_tree condition p ss).expr ctx ≡ (eval fl p.expr ctx && all_hold ss p.next_id))
        × ((and_tree condition p ss).next_id ≡ ids_after ss p.next_id)
  unfolding and_tree all_hold eval ids_after
  eval-and_tree p [] = (ground arith, refl)
  eval-and_tree p (s ∷ ss) =
      let l = leaf (condition s) (leaf_id (condition s) p.next_id) in
      let h =
        eval-and_tree
          (record p { expr = compound and p.expr l; next_id = id_after (condition s) p.next_id })
          ss in
      (
        h.0
            ∙ and_assoc (eval fl p.expr ctx) (eval fl l ctx)
                (all_hold ss (id_after (condition s) p.next_id)),
        h.1,
      )

  eval-group_tree :
      (g : Group) (ts : List Token) (id : ℕ)
      → (eval fl (group_tree condition g ts id).expr ctx ≡ all_hold (g.head ∷ g.others) id)
        × ((group_tree condition g ts id).next_id ≡ ids_after (g.head ∷ g.others) id)
  unfolding group_tree all_hold ids_after parsed_leaf
  eval-group_tree g ts id = eval-and_tree (parsed_leaf (condition g.head) ts id) g.others

  eval-or_tree :
      (left : Expr F) (id : ℕ) (gs : List Group)
      → eval fl (or_tree condition left id gs).expr ctx ≡ (eval fl left ctx || some_holds gs id)
  unfolding or_tree some_holds eval
  eval-or_tree left id [] = ground arith
  eval-or_tree left id (g ∷ gs) =
      let t = group_tree condition g (print_or gs) id in
      let h = eval-group_tree g (print_or gs) id in
      eval-or_tree (compound or left t.expr) t.next_id gs
      ∙ ap (λ b. (eval fl left ctx || b) || some_holds gs t.next_id) h.0
      ∙ ap (λ n. (eval fl left ctx || all_hold (g.head ∷ g.others) id) || some_holds gs n) h.1
      ∙ or_assoc (eval fl left ctx) (all_hold (g.head ∷ g.others) id)
          (some_holds gs (ids_after (g.head ∷ g.others) id))

  -- AND binds tighter than OR: the tokens of conjunctions joined by OR, each text one that
  -- ParseCondition reads, are parsed to a tree, and in every context it holds exactly when all
  -- conditions of some conjunction hold, with the conditions that have a window numbered from
  -- the left.
  pub parse_expr-meaning :
      (parse_condition : String → Result (Atom F)) (atom_error : String → String → String)
      (g : Group) (gs : List Group)
      → All (ReadsGroup condition parse_condition atom_error) (g ∷ gs)
      → (p : Parsed F) × ((parse_expr parse_condition atom_error (print_group g (print_or gs)) 0
            ≡ ok p)
          × (eval fl p.expr ctx ≡ some_holds (g ∷ gs) 0))
  unfolding some_holds
  parse_expr-meaning parse_condition atom_error g gs h =
      let t = group_tree condition g (print_or gs) 0 in
      let m = eval-group_tree g (print_or gs) 0 in
      (
        or_tree condition t.expr t.next_id gs,
        (
          parse_expr-print condition parse_condition atom_error g gs h,
          eval-or_tree t.expr t.next_id gs
              ∙ ap (λ b. b || some_holds gs t.next_id) m.0
              ∙ ap (λ n. all_hold (g.head ∷ g.others) 0 || some_holds gs n) m.1,
        ),
      )
