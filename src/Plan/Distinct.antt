-- ===== src/Plan/Distinct.antt =====
-- Texts without repetition, under the checks and the sorting of `Compile`.
use Prim.Native.String.{compare}
use Prim.Native.Nat.{Ordering}
use ding.Base.{
  suc, ◌≡◌, refl, sym, ap, ◌∙◌, String, Bool, true, false, ◌&&◌, not, List, [], ◌∷◌, length, str_eq,
  eq_iff, Bool-cases, inl, inr, arith, All,
}
use ding.Condition.Routing.{listed, sort_strings, insert_text}
use ding.Condition.Targets.{listed-insert_text, listed-sort_strings}
use ding.Plan.Targets.{WatchTarget, insert_target, sort_targets}

-- No text stands twice.
unfoldable pub distinct : List String → Bool
unfolding listed
distinct [] = true
distinct (x ∷ xs) = not (listed x xs) && distinct xs

unfoldable pub every : (String → Bool) → List String → Bool
every p [] = true
every p (x ∷ xs) = p x && every p xs

pub str_eq_refl : (s : String) → str_eq s s ≡ true
str_eq_refl s = (eq_iff s s).1 refl

str_eq_sym : (s t : String) → str_eq s t ≡ str_eq t s
str_eq_sym s t = elim (Bool-cases (str_eq s t)) [
  | inl e ↦ e ∙ sym ((eq_iff t s).1 (sym ((eq_iff s t).0 e)))
  | inr e ↦ elim (Bool-cases (str_eq t s)) [
    | inl h ↦ (eq_iff s t).1 (sym ((eq_iff t s).0 h)) ∙ sym h
    | inr h ↦ e ∙ sym h
  ]
]

distinct-insert_text :
    (x : String) (xs : List String)
    → distinct (insert_text x xs) ≡ (not (listed x xs) && distinct xs)
unfolding distinct insert_text
distinct-insert_text x [] = refl
distinct-insert_text x (y ∷ ys) =
    ground (arith, distinct-insert_text x ys, listed-insert_text y x ys, str_eq_sym x y)

every-insert_text :
    (p : String → Bool) (x : String) (xs : List String)
    → every p (insert_text x xs) ≡ (p x && every p xs)
unfolding every insert_text
every-insert_text p x [] = refl
every-insert_text p x (y ∷ ys) = ground (arith, every-insert_text p x ys)

pub distinct-sort_strings : (xs : List String) → distinct (sort_strings xs) ≡ distinct xs
unfolding distinct sort_strings
distinct-sort_strings [] = refl
distinct-sort_strings (x ∷ xs) =
    distinct-insert_text x (sort_strings xs)
    ∙ (λ i. not (listed-sort_strings x xs i) && distinct-sort_strings xs i)

pub every-sort_strings :
    (p : String → Bool) (xs : List String) → every p (sort_strings xs) ≡ every p xs
unfolding every sort_strings
every-sort_strings p [] = refl
every-sort_strings p (x ∷ xs) =
    every-insert_text p x (sort_strings xs) ∙ ap (λ b. p x && b) (every-sort_strings p xs)

-- The references of targets.
abbrev pub refs_of : List WatchTarget → List String
refs_of [] = []
refs_of (t ∷ ts) = t.ref ∷ refs_of ts

pub length-refs_of : (ts : List WatchTarget) → length (refs_of ts) ≡ length ts
length-refs_of [] = refl
length-refs_of (t ∷ ts) = ap suc (length-refs_of ts)

refs_of-insert_target :
    (t : WatchTarget) (us : List WatchTarget)
    → refs_of (insert_target t us) ≡ insert_text t.ref (refs_of us)
unfolding insert_target insert_text
refs_of-insert_target t [] = refl
refs_of-insert_target t (u ∷ us) = ground (arith, refs_of-insert_target t us)

pub refs_of-sort_targets :
    (ts : List WatchTarget) → refs_of (sort_targets ts) ≡ sort_strings (refs_of ts)
unfolding sort_targets sort_strings
refs_of-sort_targets [] = refl
refs_of-sort_targets (t ∷ ts) =
    refs_of-insert_target t (sort_targets ts) ∙ ap (insert_text t.ref) (refs_of-sort_targets ts)

All-insert_target :
    (P : WatchTarget → Type 0) (t : WatchTarget) (us : List WatchTarget)
    → P t
    → All P us
    → All P (insert_target t us)
unfolding insert_target
All-insert_target P t [] h k = (h, tt)
All-insert_target P t (u ∷ us) h k = place (compare t.ref u.ref) (All-insert_target P t us h k.1)
  where
    place :
        (o : Ordering)
        → All P (insert_target t us)
        → All P (elim o [ Ordering.gt ↦ u ∷ insert_target t us | _ ↦ t ∷ u ∷ us ])
    place Ordering.gt rest = (k.0, rest)
    place Ordering.lt rest = (h, k)
    place Ordering.eq rest = (h, k)

pub All-sort_targets :
    (P : WatchTarget → Type 0) (ts : List WatchTarget) → All P ts → All P (sort_targets ts)
unfolding sort_targets
All-sort_targets P [] h = tt
All-sort_targets P (t ∷ ts) h =
    All-insert_target P t (sort_targets ts) h.0 (All-sort_targets P ts h.1)

-- What the loop over events finds of them beside the ones it has seen.
pub record Fresh (p : String → Bool) (seen es : List String) : Type 0 where
  pub valid : every p es ≡ true
  pub apart : distinct es ≡ true
  pub unseen : (y : String) → listed y seen ≡ true → listed y es ≡ false

pub Fresh-none : (p : String → Bool) (seen : List String) → Fresh p seen []
unfolding every distinct listed
Fresh-none p seen = record { valid = refl; apart = refl; unseen = λ y q. refl }

-- One more text in front of fresh ones.
pub Fresh-step :
    (p : String → Bool) (seen es : List String) (e : String)
    → p e ≡ true
    → listed e seen ≡ false
    → Fresh p (e ∷ seen) es
    → Fresh p seen (e ∷ es)
unfolding every distinct listed
Fresh-step p seen es e h k f = record {
  valid = ground (arith, h, f.valid);
  apart = ground (arith, f.apart, f.unseen e, str_eq_refl e);
  unseen = λ y q. elim (Bool-cases (str_eq e y)) [
    | inl r ↦ (let same = ap (λ t. listed t seen) ((eq_iff e y).0 r) in cc)
    | inr r ↦ ground (arith, r, q, f.unseen y)
  ];
}
