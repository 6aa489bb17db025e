-- ===== src/Plan/Normal.antt =====
-- What is compiled is in normal form: compiled again it is the same.
use ding.Base.{
  ℕ, ◌≡◌, ◌<◌, refl, sym, ap, ◌∙◌, String, Bool, true, false, not, Option, none, some, str_eq,
  eq_iff, inl, inr, Result, ok, err, ◌>>=◌, if◌then◌else◌, arith, Bool-cases, Option-cases,
}
use ding.Base.Int.{ℤ, pos, negsuc}
use ding.Plan.Durations.{Durations, or_text, or_int, within, duration, nanoseconds, normal_duration}

-- Where a chain gave a value, its first step did and so did what came after.
pub bind-ok {κ ℓ} :
    {X : Type κ} {Y : Type ℓ} (first : Result X) (next : X → Result Y) {y : Y}
    → (first >>= next) ≡ ok y
    → (x : X) × ((first ≡ ok x) × (next x ≡ ok y))
bind-ok (err message) next h = cc
bind-ok (ok x) next h = (x, (refl, h))

pub bind-from {ℓ κ} :
    {A : Type ℓ} {B : Type κ} (m : Result A) (f : A → Result B) {a : A} {r : Result B}
    → m ≡ ok a
    → f a ≡ r
    → (m >>= f) ≡ r
bind-from (ok x) f e h = cc
bind-from (err x) f e h = cc

pub or_text-keeps : (default s : String) → str_eq s "" ≡ false → or_text default s ≡ s
unfolding or_text
or_text-keeps default s h = ground (arith, h)

pub or_int-keeps :
    (default low high : ℕ) (n : ℤ) → 0 < low → within low high n ≡ true → or_int default n ≡ n
unfolding or_int within
or_int-keeps default low high (pos n) l h = ground (arith, l, h)
or_int-keeps default low high (negsuc n) l h = refl

-- A check of a condition under which the rest is done.
pub passed {ℓ} :
    {A : Type ℓ} (b : Bool) (e : String) (r : Result A) {a : A}
    → (if not b then err e else r) ≡ ok a
    → (b ≡ true) × (r ≡ ok a)
passed true e r h = (refl, h)
passed false e r h = cc

pub passes {ℓ} :
    {A : Type ℓ} (b : Bool) (e : String) (r : Result A) {x : Result A}
    → b ≡ true
    → r ≡ x
    → (if not b then err e else r) ≡ x
passes true e r h k = k
passes false e r h k = cc

-- The same for a count that may be too large.
pub few_passed {ℓ} :
    {A : Type ℓ} (b : Bool) (e : String) (r : Result A) {a : A}
    → (if b then err e else r) ≡ ok a
    → (b ≡ false) × (r ≡ ok a)
few_passed true e r h = cc
few_passed false e r h = (refl, h)

pub few_passes {ℓ} :
    {A : Type ℓ} (b : Bool) (e : String) (r : Result A) {x : Result A}
    → b ≡ false
    → r ≡ x
    → (if b then err e else r) ≡ x
few_passes true e r h k = cc
few_passes false e r h k = k

pub or_text-full :
    (default s : String) → str_eq default "" ≡ false → str_eq (or_text default s) "" ≡ false
unfolding or_text
or_text-full default s h = ground (arith, h)

module _ (durations : Durations)
    (reads_back : (d : ℕ) → durations.parse (durations.print d) ≡ some d)
    (prints : (d : ℕ) → str_eq (durations.print d) "" ≡ false) where
  normal-empty : (s : String) → str_eq s "" ≡ true → normal_duration durations s ≡ ""
  unfolding normal_duration
  normal-empty s e = ap (λ b. if b then "" else durations.print (nanoseconds durations s)) e

  normal-full :
      (s : String)
      → str_eq s "" ≡ false
      → normal_duration durations s ≡ durations.print (nanoseconds durations s)
  unfolding normal_duration
  normal-full s e = ap (λ b. if b then "" else durations.print (nanoseconds durations s)) e

  nanoseconds-parse :
      (s : String) (d : ℕ) → durations.parse s ≡ some d → nanoseconds durations s ≡ d
  unfolding nanoseconds
  nanoseconds-parse s d h = ap (λ (o : Option ℕ). elim o [ none ↦ 0 | some n ↦ n ]) h

  -- An empty text is empty in normal form, and no other is.
  pub normal_duration-empty : (s : String) → str_eq (normal_duration durations s) "" ≡ str_eq s ""
  normal_duration-empty s = elim (Bool-cases (str_eq s "")) [
    | inl e ↦ ap (λ t. str_eq t "") (normal-empty s e ∙ sym ((eq_iff s "").0 e))
    | inr e ↦ ap (λ t. str_eq t "") (normal-full s e) ∙ prints (nanoseconds durations s) ∙ sym e
  ]

  pub normal_duration-parse :
      (s : String) (d : ℕ)
      → durations.parse s ≡ some d
      → durations.parse (normal_duration durations s) ≡ some d
  normal_duration-parse s d h = elim (Bool-cases (str_eq s "")) [
    | inl e ↦ ap durations.parse (normal-empty s e ∙ sym ((eq_iff s "").0 e)) ∙ h
    | inr e ↦
        ap durations.parse (normal-full s e ∙ ap durations.print (nanoseconds-parse s d h))
        ∙ reads_back d
  ]

  pub duration-normal :
      (s : String) (low high d : ℕ)
      → duration durations s low high ≡ ok d
      → duration durations (normal_duration durations s) low high ≡ ok d
  unfolding duration
  duration-normal s low high d h = elim (Option-cases (durations.parse s)) [
    | inl e ↦ ground (arith, h, e)
    | inr (x, e) ↦ ground (arith, h, e, normal_duration-parse s x e)
  ]

  pub normal_duration-again :
      (s : String)
      → normal_duration durations (normal_duration durations s) ≡ normal_duration durations s
  normal_duration-again s = elim (Bool-cases (str_eq s "")) [
    | inl e ↦ ap (normal_duration durations) (normal-empty s e ∙ sym ((eq_iff s "").0 e))
    | inr e ↦
        normal-full (normal_duration durations s) (normal_duration-empty s ∙ e)
        ∙ ap durations.print (
            nanoseconds-parse (normal_duration durations s) (nanoseconds durations s)
              (ap durations.parse (normal-full s e) ∙ reads_back (nanoseconds durations s)))
        ∙ sym (normal-full s e)
  ]
