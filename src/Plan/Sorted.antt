-- ===== src/Plan/Sorted.antt =====
-- Sorting what is sorted, and the grouping fields that `Compile` gives.
use Prim.Native.String.{compare}
use Prim.Native.Nat.{Ordering}
use ding.Base.{
  ◌≡◌, ◌≤◌, refl, sym, ap, ◌∙◌, subst, String, List, [], ◌∷◌, none, length, ltb, ltb-false→le, ok,
}
use ding.Base.Ensures.{ok_injective}
use ding.Condition.Routing.{insert_text, sort_strings, listed}
use ding.Condition.Targets.{length-sort_strings, listed-sort_strings}
use ding.Plan.Normal.{bind-ok, bind-from, few_passed, few_passes}
use ding.Plan.Order.{compare-asym}
use ding.Plan.Groups.{fields_checked, compile_groups}

-- No text stands after the one that follows it.
unfoldable pub IsAscending : String → List String → Type 0
IsAscending x [] = Unit
IsAscending x (y ∷ ys) = (compare x y ≡ Ordering.gt → ⊥) × IsAscending y ys

unfoldable pub IsSorted : List String → Type 0
unfolding IsAscending
IsSorted [] = Unit
IsSorted (x ∷ xs) = IsAscending x xs

insert_text-IsAscending :
    (x y : String) (ys : List String)
    → compare x y ≡ Ordering.gt
    → IsAscending y ys
    → IsAscending y (insert_text x ys)
unfolding IsAscending insert_text
insert_text-IsAscending x y [] h k = (compare-asym x y h, tt)
insert_text-IsAscending x y (z ∷ zs) h k =
    place (compare x z) refl (λ q. insert_text-IsAscending x z zs q k.1)
  where
    place :
        (o : Ordering)
        → compare x z ≡ o
        → (compare x z ≡ Ordering.gt → IsAscending z (insert_text x zs))
        → IsAscending y (elim o [ Ordering.gt ↦ z ∷ insert_text x zs | _ ↦ x ∷ z ∷ zs ])
    place Ordering.gt q rest = (k.0, rest q)
    place Ordering.lt q rest = (compare-asym x y h, ((λ g. cc), k.1))
    place Ordering.eq q rest = (compare-asym x y h, ((λ g. cc), k.1))

insert_text-IsSorted : (x : String) (xs : List String) → IsSorted xs → IsSorted (insert_text x xs)
unfolding IsSorted insert_text
insert_text-IsSorted x [] h = tt
insert_text-IsSorted x (y ∷ ys) h = place (compare x y) refl
  where
    place :
        (o : Ordering)
        → compare x y ≡ o
        → IsSorted (elim o [ Ordering.gt ↦ y ∷ insert_text x ys | _ ↦ x ∷ y ∷ ys ])
    place Ordering.gt q = insert_text-IsAscending x y ys q h
    place Ordering.lt q = ((λ g. cc), h)
    place Ordering.eq q = ((λ g. cc), h)

pub sort_strings-IsSorted : (xs : List String) → IsSorted (sort_strings xs)
unfolding IsSorted sort_strings
sort_strings-IsSorted [] = tt
sort_strings-IsSorted (x ∷ xs) = insert_text-IsSorted x (sort_strings xs) (sort_strings-IsSorted xs)

insert_text-first : (x : String) (xs : List String) → IsAscending x xs → insert_text x xs ≡ x ∷ xs
unfolding IsAscending insert_text
insert_text-first x [] h = refl
insert_text-first x (y ∷ ys) h = place (compare x y) refl
  where
    place :
        (o : Ordering)
        → compare x y ≡ o
        → (elim o [ Ordering.gt ↦ y ∷ insert_text x ys | _ ↦ x ∷ y ∷ ys ]) ≡ x ∷ y ∷ ys
    place Ordering.gt q = absurd (h.0 q)
    place Ordering.lt q = refl
    place Ordering.eq q = refl

pub IsAscending-IsSorted : (x : String) (xs : List String) → IsAscending x xs → IsSorted xs
unfolding IsAscending IsSorted
IsAscending-IsSorted x [] h = tt
IsAscending-IsSorted x (y ∷ ys) h = h.1

pub sort_strings-sorted : (xs : List String) → IsSorted xs → sort_strings xs ≡ xs
unfolding IsSorted sort_strings
sort_strings-sorted [] h = refl
sort_strings-sorted (x ∷ xs) h =
    ap (insert_text x) (sort_strings-sorted xs (IsAscending-IsSorted x xs h))
    ∙ insert_text-first x xs h

-- The grouping fields that Compile gives are at most 16 and the same ones as in the declaration,
-- and compiled again they are accepted and stay as they are.
pub compile_groups-again :
    (gs hs : List String)
    → compile_groups gs ≡ ok hs
    → (compile_groups hs ≡ ok hs) × ((length hs ≤ 16) × ((k : String) → listed k hs ≡ listed k gs))
unfolding compile_groups
compile_groups-again gs hs h =
    let p = few_passed (ltb 16 (length gs)) _ _ h in
    let loop = bind-ok (fields_checked none (sort_strings gs)) _ p.1 in
    let twice = sort_strings-sorted (sort_strings gs) (sort_strings-IsSorted gs) in
    let count = length-sort_strings gs in
    subst
      (λ xs.
        (compile_groups xs ≡ ok xs)
        × ((length xs ≤ 16) × ((k : String) → listed k xs ≡ listed k gs)))
      (ok_injective loop.1.1)
      (
        few_passes (ltb 16 (length (sort_strings gs))) _ _ (ap (ltb 16) count ∙ p.0) (
            bind-from (fields_checked none (sort_strings (sort_strings gs))) _
              (ap (fields_checked none) twice ∙ loop.1.0) (ap ok twice)),
        (
          subst (λ n. n ≤ 16) (sym count) (ltb-false→le 16 (length gs) p.0),
          λ k. listed-sort_strings k gs,
        ),
      )
