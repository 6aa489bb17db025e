-- ===== src/Runtime/Overlay.antt =====
-- The tables with the pending states of a cache written over them, as the flush will write them.
use ding.Base.{
  ◌+◌, ◌≡◌, refl, sym, ◌∙◌, ap, String, Bool, true, false, ◌||◌, List, [], ◌∷◌, Option, none, some,
  str_eq, if◌then◌else◌, length, arith, Bool-cases, eq_iff, inl, inr,
}
use ding.Base.Maps.{
  find, put, remove, has, find-put_same, find-put_other, has-put, length-put, Unique, Unique-put,
  same_text,
}
use ding.Condition.Model.{State}
use ding.Runtime.Tables.{save_all}

abbrev pub is_some {ℓ} : {A : Type ℓ} → Option A → Bool
is_some none = false
is_some (some a) = true

abbrev pub or_else {ℓ} : {A : Type ℓ} → Option A → Option A → Option A
or_else none b = b
or_else (some a) b = some a

module _ {A : Type 0} where
  pub is_some-find : (k : String) (m : List (String × A)) → is_some (find k m) ≡ has k m
  unfolding find has
  is_some-find k [] = refl
  is_some-find k ((j, b) ∷ m) = ground (arith, is_some-find k m)

  pub remove-absent : (k : String) (m : List (String × A)) → has k m ≡ false → remove k m ≡ m
  unfolding remove has
  remove-absent k [] h = refl
  remove-absent k ((j, b) ∷ m) h = ground (arith, h, remove-absent k m)

  pub length-remove :
      (k : String) (m : List (String × A))
      → Unique m
      → length (remove k m) + (if has k m then 1 else 0) ≡ length m
  unfolding remove has
  length-remove k [] u = refl
  length-remove k ((j, b) ∷ m) u = elim (Bool-cases (str_eq j k)) [
    | inl e ↦ ground (arith, e, u.0, (eq_iff j k).0 e, remove-absent k m, length-remove k m u.1)
    | inr e ↦ ground (arith, e, length-remove k m u.1)
  ]

  pub remove-put :
      (j k : String) (b : A) (m : List (String × A))
      → remove k (put j b m) ≡ (if str_eq j k then remove k m else put j b (remove k m))
  unfolding remove put
  remove-put j k b [] = refl
  remove-put j k b ((i, a) ∷ m) = ground (arith, same_text i j k, remove-put j k b m)

  -- A map that agrees with a map of unique keys has as many of them.
  pub has-find_eq :
      (k : String) (m m' : List (String × A)) → find k m ≡ find k m' → has k m ≡ has k m'
  has-find_eq k m m' e = sym (is_some-find k m) ∙ ap is_some e ∙ is_some-find k m'

  pub find-put_eq :
      (k l : String) (a : A) (m m' : List (String × A))
      → find l m ≡ find l m'
      → find l (put k a m) ≡ find l (put k a m')
  find-put_eq k l a m m' e = elim (Bool-cases (str_eq k l)) [
    | inl p ↦ ground (arith, (eq_iff k l).0 p, find-put_same k a m, find-put_same k a m')
    | inr p ↦ find-put_other k l a m p ∙ e ∙ sym (find-put_other k l a m' p)
  ]

module _ {F : Type 0} where
  pub find-save_all :
      (k : String) (p m : List (String × State F))
      → find k (save_all p m) ≡ or_else (find k p) (find k m)
  unfolding save_all find
  find-save_all k [] m = refl
  find-save_all k ((j, s) ∷ p) m = elim (Bool-cases (str_eq j k)) [
    | inl e ↦ ground (arith, e, (eq_iff j k).0 e, find-put_same j s (save_all p m))
    | inr e ↦ ground (arith, e, find-put_other j k s (save_all p m) e, find-save_all k p m)
  ]

  pub has-save_all :
      (k : String) (p m : List (String × State F)) → has k (save_all p m) ≡ (has k p || has k m)
  unfolding save_all has
  has-save_all k [] m = refl
  has-save_all k ((j, s) ∷ p) m = ground (arith, has-put j k s (save_all p m), has-save_all k p m)

  pub Unique-save_all : (p m : List (String × State F)) → Unique m → Unique (save_all p m)
  unfolding save_all
  Unique-save_all [] m u = u
  Unique-save_all ((j, s) ∷ p) m u = Unique-put j s (save_all p m) (Unique-save_all p m u)

  pub length-save_all-put :
      (k : String) (s : State F) (p m : List (String × State F))
      → length (save_all (put k s p) m)
        ≡ (if has k (save_all p m) then 0 else 1) + length (save_all p m)
  unfolding save_all put
  length-save_all-put k s [] m = length-put k s m
  length-save_all-put k s ((j, t) ∷ p) m = ground (
    arith,
    length-put j s (save_all p m),
    length-put j t (save_all p m),
    length-put j t (save_all (put k s p) m),
    length-save_all-put k s p m,
    has-put j j t (save_all p m),
    has-put j k t (save_all p m),
    has-save_all j (put k s p) m,
    has-save_all j p m,
    has-put k j s p,
    eq_iff j k,
    eq_iff k j,
    (eq_iff j j).1 refl,
  )

  pub save_all-remove :
      (k : String) (p m : List (String × State F))
      → save_all (remove k p) (remove k m) ≡ remove k (save_all p m)
  unfolding save_all remove
  save_all-remove k [] m = refl
  save_all-remove k ((j, s) ∷ p) m =
      ground (arith, remove-put j k s (save_all p m), save_all-remove k p m)
