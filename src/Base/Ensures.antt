-- ===== src/Base/Ensures.antt =====
-- What holds of the value of a result, if it has one, with the rules for the ways to build a result.
use mathlib.Core.Path.{◌≡◌, refl, subst}
use mathlib.Core.Bool.{Bool, true, false}
use ding.Base.Tests.{Result, ok, err, ◌>>=◌, if◌then◌else◌}

abbrev pub Ensures {ℓ} : {A : Type ℓ} → (A → Type 0) → Result A → Type 0
Ensures P (ok a) = P a
Ensures P (err e) = Unit

pub Ensures-bind {ℓ κ} :
    {A : Type ℓ} {B : Type κ} (P : A → Type 0) (Q : B → Type 0) (m : Result A) (f : A → Result B)
    → Ensures P m
    → ((a : A) → P a → Ensures Q (f a))
    → Ensures Q (m >>= f)
Ensures-bind P Q (ok a) f h k = k a h
Ensures-bind P Q (err e) f h k = tt

pub Ensures-if {ℓ} :
    {A : Type ℓ} (P : A → Type 0) (b : Bool) (x y : Result A)
    → (b ≡ true → Ensures P x)
    → (b ≡ false → Ensures P y)
    → Ensures P (if b then x else y)
Ensures-if P true x y h k = h refl
Ensures-if P false x y h k = k refl

pub ok_injective {ℓ} : {A : Type ℓ} {a b : A} → ok a ≡ ok b → a ≡ b
ok_injective e = cc

-- A postcondition is that of every value.
pub ensured {ℓ} :
    {A : Type ℓ} (P : A → Type 0) (r : Result A) {a : A} → Ensures P r → r ≡ ok a → P a
ensured P (ok b) h e = subst P (ok_injective e) h
ensured P (err x) h e = cc

pub Ensures-of {ℓ} :
    {A : Type ℓ} (P : A → Type 0) (r : Result A) → ((a : A) → r ≡ ok a → P a) → Ensures P r
Ensures-of P (ok a) h = h a refl
Ensures-of P (err x) h = tt

pub Ensures-mono {ℓ} :
    {A : Type ℓ} (P Q : A → Type 0) (r : Result A)
    → ((a : A) → P a → Q a)
    → Ensures P r
    → Ensures Q r
Ensures-mono P Q (ok a) h k = h a k
Ensures-mono P Q (err x) h k = tt

-- The result is a value.
abbrev pub Succeeds {ℓ} : {A : Type ℓ} → Result A → Type 0
Succeeds (ok a) = Unit
Succeeds (err e) = ⊥

pub Succeeds-bind {ℓ κ} :
    {A : Type ℓ} {B : Type κ} (m : Result A) (f : A → Result B)
    → Succeeds m
    → ((a : A) → Succeeds (f a))
    → Succeeds (m >>= f)
Succeeds-bind (ok a) f h k = k a
Succeeds-bind (err e) f h k = absurd h

pub Succeeds-if {ℓ} :
    {A : Type ℓ} (b : Bool) (x y : Result A)
    → Succeeds x
    → Succeeds y
    → Succeeds (if b then x else y)
Succeeds-if true x y h k = h
Succeeds-if false x y h k = k

pub Succeeds-value {ℓ} : {A : Type ℓ} (r : Result A) → Succeeds r → (a : A) × (r ≡ ok a)
Succeeds-value (ok a) h = (a, refl)
Succeeds-value (err e) h = absurd h

pub Succeeds-of {ℓ} : {A : Type ℓ} (r : Result A) {a : A} → r ≡ ok a → Succeeds r
Succeeds-of (ok b) h = tt
Succeeds-of (err e) h = cc

-- Nothing is asked of the first step.
pub Ensures-then {ℓ κ} :
    {A : Type ℓ} {B : Type κ} (Q : B → Type 0) (m : Result A) (f : A → Result B)
    → ((a : A) → m ≡ ok a → Ensures Q (f a))
    → Ensures Q (m >>= f)
Ensures-then Q (ok a) f h = h a refl
Ensures-then Q (err e) f h = tt
