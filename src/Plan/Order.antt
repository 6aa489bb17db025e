-- ===== src/Plan/Order.antt =====
-- The order of texts, and sorting what is sorted.
use Prim.Native.Nat.{ℕ, Ordering, compare as compare_number}
use Prim.Native.Char.{code}
use Prim.Native.String.{String, [], ◌∷◌, compare, then}
use Prim.Native.String.compare
use mathlib.Core.Path.{◌≡◌, sym, ◌∙◌}
use native.Mathlib.Omega.{arith}

not_both :
    (a b : ℕ) (o p : Ordering)
    → (o ≡ Ordering.gt → p ≡ Ordering.gt → ⊥)
    → then (compare_number a b) o ≡ Ordering.gt
    → then (compare_number b a) p ≡ Ordering.gt
    → ⊥
not_both a b o p k h q = ground (arith, k, h, q)

-- Two texts do not both come after each other.
pub compare-asym : (s t : String) → compare s t ≡ Ordering.gt → compare t s ≡ Ordering.gt → ⊥
compare-asym [] [] h k = (let e = compare.nil-nil in cc)
compare-asym [] (d ∷ t) h k = (let e = compare.nil-cons d t in cc)
compare-asym (c ∷ s) [] h k = (let e = compare.nil-cons c s in cc)
compare-asym (c ∷ s) (d ∷ t) h k =
    not_both (code c) (code d) (compare s t) (compare t s) (compare-asym s t)
      (sym (compare.cons-cons c d s t) ∙ h) (sym (compare.cons-cons d c t s) ∙ k)
