-- ===== src/Base/Lists.antt =====
-- Lists measured by native numbers.
use Prim.Native.Nat.{ℕ, suc, ◌+◌, ◌≤◌}
use mathlib.Core.Path.{◌≡◌, refl, sym, subst}
use mathlib.Core.Bool.{Bool, true, false}
use mathlib.Core.Option.{Option, none, some}
use mathlib.Core.List.{List, [], ◌∷◌, ◌++◌}
use native.Mathlib.Omega.{arith}
use ding.Base.Tests.{if◌then◌else◌}

module _ {ℓ} {A : Type ℓ} where
  abbrev pub length : List A → ℕ
  length [] = 0
  length (x ∷ xs) = suc (length xs)

  pub length-append : (xs ys : List A) → length (xs ++ ys) ≡ length xs + length ys
  length-append [] ys = omega arith
  length-append (x ∷ xs) ys = omega (arith, length-append xs ys)

  -- The elements that pass a Boolean test, in order.
  unfoldable pub keep : (A → Bool) → List A → List A
  keep p [] = []
  keep p (x ∷ xs) = let rest = keep p xs in if p x then x ∷ rest else rest

  pub length-keep-le : (p : A → Bool) (xs : List A) → length (keep p xs) ≤ length xs
  unfolding keep
  length-keep-le p [] = omega arith
  length-keep-le p (x ∷ xs) = ground (arith, length-keep-le p xs)

  pub keep-append : (p : A → Bool) (xs ys : List A) → keep p (xs ++ ys) ≡ keep p xs ++ keep p ys
  unfolding keep
  keep-append p [] ys = refl
  keep-append p (x ∷ xs) ys = ground (arith, keep-append p xs ys)

-- A property of every element.
abbrev pub All {ℓ κ} : {A : Type ℓ} → (A → Type κ) → List A → Type κ
All P [] = Unit
All P (x ∷ xs) = P x × All P xs

pub All-append {ℓ κ} :
    {A : Type ℓ} (P : A → Type κ) (xs ys : List A) → All P xs → All P ys → All P (xs ++ ys)
All-append P [] ys h k = k
All-append P (x ∷ xs) ys h k = (h.0, All-append P xs ys h.1 k)

pub All-mono {ℓ κ} :
    {A : Type ℓ} (P Q : A → Type κ) (xs : List A) → ((x : A) → P x → Q x) → All P xs → All Q xs
All-mono P Q [] f h = tt
All-mono P Q (x ∷ xs) f h = (f x h.0, All-mono P Q xs f h.1)

-- The element stands in the list.
pub data Member {ℓ} {A : Type ℓ} (x : A) : List A → Type ℓ where
  here : {y : A} {ys : List A} → x ≡ y → Member x (y ∷ ys)
  there : {y : A} {ys : List A} → Member x ys → Member x (y ∷ ys)

pub All-Member {ℓ κ} :
    {A : Type ℓ} (P : A → Type κ) (x : A) (xs : List A) → All P xs → Member x xs → P x
All-Member P x [] h m = elim m [ ]
All-Member P x (y ∷ ys) h (here e) = subst P (sym e) h.0
All-Member P x (y ∷ ys) h (there m) = All-Member P x ys h.1 m

-- A property of the value, if there is one.
abbrev pub Each {ℓ κ} : {A : Type ℓ} → (A → Type κ) → Option A → Type κ
Each P none = Unit
Each P (some x) = P x

pub Each-if {ℓ κ} :
    {A : Type ℓ} (P : A → Type κ) (b : Bool) (o : Option A)
    → (b ≡ true → Each P o)
    → Each P (if b then o else none)
Each-if P true o h = h refl
Each-if P false o h = tt

pub keep-Member {ℓ} :
    {A : Type ℓ} (p : A → Bool) (x : A) (xs : List A)
    → Member x xs
    → p x ≡ true
    → Member x (keep p xs)
unfolding keep
keep-Member p x [] m h = elim m [ ]
keep-Member p x (y ∷ ys) (here e) h =
    subst (λ b. Member x (if b then y ∷ keep p ys else keep p ys))
      (sym (subst (λ z. p z ≡ true) e h)) (here e)
keep-Member p x (y ∷ ys) (there m) h = cases (p y) (keep-Member p x ys m h)
  where
    cases : (b : Bool) → Member x (keep p ys) → Member x (if b then y ∷ keep p ys else keep p ys)
    cases true rest = there rest
    cases false rest = rest

pub Member-keep {ℓ} :
    {A : Type ℓ} (p : A → Bool) (x : A) (xs : List A) → Member x (keep p xs) → p x ≡ true
unfolding keep
Member-keep p x [] m = elim m [ ]
Member-keep p x (y ∷ ys) m = cases (p y) refl m (Member-keep p x ys)
  where
    cases :
        (b : Bool)
        → p y ≡ b
        → Member x (if b then y ∷ keep p ys else keep p ys)
        → (Member x (keep p ys) → p x ≡ true)
        → p x ≡ true
    cases true e (here q) rest = subst (λ z. p z ≡ true) (sym q) e
    cases true e (there k) rest = rest k
    cases false e k rest = rest k
