-- ===== src/Base/Maps.antt =====
-- Maps with text keys, as lists of their entries; a key stands once where it was put by `put`.
use Prim.Native.Nat.{◌+◌, ◌≤◌}
use Prim.Native.String.{String}
use mathlib.Core.Path.{◌≡◌, refl, sym, ◌∙◌, ap}
use mathlib.Core.Logic.{inl, inr}
use mathlib.Core.Bool.{Bool, true, false, ◌||◌}
use mathlib.Core.Option.{Option, none, some}
use mathlib.Core.List.{List, [], ◌∷◌}
use native.Mathlib.Omega.{arith}
use text.Mathlib.Text.{◌==◌ as str_eq}
use text.Mathlib.TextEquality.{eq_iff}
use ding.Base.Tests.{if◌then◌else◌, Bool-cases}
use ding.Base.Lists.{length, All, Each}

pub same_text : (j k l : String) → str_eq j k ≡ true → str_eq j l ≡ str_eq k l
same_text j k l p = ap (λ x. str_eq x l) ((eq_iff j k).0 p)

pub not_sym : (j k : String) → str_eq j k ≡ false → str_eq k j ≡ false
not_sym j k h = elim (Bool-cases (str_eq k j)) [
  | inl e ↦ ground (arith, h, (eq_iff j k).1 (sym ((eq_iff k j).0 e)))
  | inr e ↦ e
]

pub apart : (j k l : String) → str_eq j k ≡ true → str_eq k l ≡ false → str_eq j l ≡ false
apart j k l p q = same_text j k l p ∙ q

module _ {ℓ} {A : Type ℓ} where
  unfoldable pub find : String → List (String × A) → Option A
  find k [] = none
  find k ((j, a) ∷ m) = let rest = find k m in if str_eq j k then some a else rest

  unfoldable pub put : String → A → List (String × A) → List (String × A)
  put k a [] = (k, a) ∷ []
  put k a ((j, b) ∷ m) = let rest = put k a m in if str_eq j k then (j, a) ∷ m else (j, b) ∷ rest

  unfoldable pub remove : String → List (String × A) → List (String × A)
  remove k [] = []
  remove k ((j, b) ∷ m) = let rest = remove k m in if str_eq j k then rest else (j, b) ∷ rest

  unfoldable pub has : String → List (String × A) → Bool
  has k [] = false
  has k ((j, b) ∷ m) = str_eq j k || has k m

  -- Every key stands once.
  abbrev pub Unique : List (String × A) → Type 0
  Unique [] = Unit
  Unique ((j, b) ∷ m) = (has j m ≡ false) × Unique m

  pub find-put_same : (k : String) (a : A) (m : List (String × A)) → find k (put k a m) ≡ some a
  unfolding find put
  find-put_same k a [] = ground (arith, (eq_iff k k).1 refl)
  find-put_same k a ((j, b) ∷ m) = ground (arith, find-put_same k a m)

  pub find-put_other :
      (k l : String) (a : A) (m : List (String × A))
      → str_eq k l ≡ false
      → find l (put k a m) ≡ find l m
  unfolding find put
  find-put_other k l a [] h = ground (arith, h)
  find-put_other k l a ((j, b) ∷ m) h = ground (arith, h, apart j k l, find-put_other k l a m h)

  pub find-remove_same : (k : String) (m : List (String × A)) → find k (remove k m) ≡ none
  unfolding find remove
  find-remove_same k [] = refl
  find-remove_same k ((j, b) ∷ m) = ground (arith, find-remove_same k m)

  pub find-remove_other :
      (k l : String) (m : List (String × A)) → str_eq k l ≡ false → find l (remove k m) ≡ find l m
  unfolding find remove
  find-remove_other k l [] h = refl
  find-remove_other k l ((j, b) ∷ m) h = ground (arith, h, apart j k l, find-remove_other k l m h)

  pub has-put :
      (k l : String) (a : A) (m : List (String × A)) → has l (put k a m) ≡ (str_eq k l || has l m)
  unfolding has put
  has-put k l a [] = refl
  has-put k l a ((j, b) ∷ m) = ground (arith, same_text j k l, has-put k l a m)

  pub length-put :
      (k : String) (a : A) (m : List (String × A))
      → length (put k a m) ≡ (if has k m then 0 else 1) + length m
  unfolding has put
  length-put k a [] = refl
  length-put k a ((j, b) ∷ m) = ground (arith, length-put k a m)

  pub length-remove-le : (k : String) (m : List (String × A)) → length (remove k m) ≤ length m
  unfolding remove
  length-remove-le k [] = omega arith
  length-remove-le k ((j, b) ∷ m) = ground (arith, length-remove-le k m)

  pub Unique-put : (k : String) (a : A) (m : List (String × A)) → Unique m → Unique (put k a m)
  unfolding put has
  Unique-put k a [] h = (refl, tt)
  Unique-put k a ((j, b) ∷ m) h = elim (Bool-cases (str_eq j k)) [
    | inl e ↦ rw e h
    | inr e ↦ rw e ((has-put k j a m ∙ ground (arith, h.0, e, not_sym j k), Unique-put k a m h.1))
  ]

  -- A property of every value, kept by the updates.
  pub All-put {κ} :
      (P : String × A → Type κ) (k : String) (a : A) (m : List (String × A))
      → ((j : String) → str_eq j k ≡ true → P (j, a))
      → All P m
      → All P (put k a m)
  unfolding put
  All-put P k a [] h all = (h k ((eq_iff k k).1 refl), tt)
  All-put P k a ((j, b) ∷ m) h all = elim (Bool-cases (str_eq j k)) [
    | inl e ↦ rw e (h j e, all.1)
    | inr e ↦ rw e (all.0, All-put P k a m h all.1)
  ]

  pub All-remove {κ} :
      (P : String × A → Type κ) (k : String) (m : List (String × A)) → All P m → All P (remove k m)
  unfolding remove
  All-remove P k [] all = tt
  All-remove P k ((j, b) ∷ m) all = elim (Bool-cases (str_eq j k)) [
    | inl e ↦ rw e (All-remove P k m all.1)
    | inr e ↦ rw e (all.0, All-remove P k m all.1)
  ]

  pub has-remove :
      (k l : String) (m : List (String × A)) → has l m ≡ false → has l (remove k m) ≡ false
  unfolding remove has
  has-remove k l [] h = refl
  has-remove k l ((j, b) ∷ m) h = ground (arith, h, has-remove k l m)

  pub Unique-remove : (k : String) (m : List (String × A)) → Unique m → Unique (remove k m)
  unfolding remove
  Unique-remove k [] h = tt
  Unique-remove k ((j, b) ∷ m) h = elim (Bool-cases (str_eq j k)) [
    | inl e ↦ rw e (Unique-remove k m h.1)
    | inr e ↦ rw e (has-remove k j m h.0, Unique-remove k m h.1)
  ]

  pub has-find : (k : String) (m : List (String × A)) → has k m ≡ false → find k m ≡ none
  unfolding has find
  has-find k [] h = refl
  has-find k ((j, b) ∷ m) h = ground (arith, h, has-find k m)

  -- What is found satisfies what all satisfy.
  pub All-find {κ} :
      (P : A → Type κ) (k : String) (m : List (String × A)) → All (λ e. P e.1) m → Each P (find k m)
  unfolding find
  All-find P k [] all = tt
  All-find P k ((j, b) ∷ m) all = cases (str_eq j k) (All-find P k m all.1)
    where
      cases : (e : Bool) → Each P (find k m) → Each P (if e then some b else find k m)
      cases true h = all.0
      cases false h = h
