-- ===== src/Outbox/Ids.antt =====
-- The primary key of outbox: the ids are ascending and below the next one, and an update by the key
-- reaches one row.
use ding.Base.{
  ℕ, suc, ◌+◌, ◌≡◌, ◌≤◌, ◌<◌, refl, ap, sym, subst, inl, inr, Bool, true, false, List, [], ◌∷◌,
  ◌++◌, map, All, All-append, Member, here, there, ==_iff, ◌==◌, if◌then◌else◌, arith, Bool-cases,
}
use ding.Outbox.Rows.{Row, Store, update, any}

unfoldable pub ids : List Row → List ℕ
ids rows = map (λ r. r.id) rows

abbrev pub Ascending : List ℕ → Type 0
Ascending [] = Unit
Ascending (n ∷ ns) = All (λ m. n < m) ns × Ascending ns

-- The ids of the table, in the order of the insertions.
pub record Keyed (st : Store) : Type 0 where
  pub ascending : Ascending (ids st.rows)
  pub below : All (λ n. n < st.next_id) (ids st.rows)

pub ids-update :
    (n : ℕ) (f : Row → Row) (rows : List Row)
    → ((r : Row) → (f r).id ≡ r.id)
    → ids (update n f rows) ≡ ids rows
unfolding ids update
ids-update n f [] h = refl
ids-update n f (r ∷ rows) h = ground (arith, h r, ids-update n f rows h)

unfoldable pub count {ℓ} : {A : Type ℓ} → (A → Bool) → List A → ℕ
count p [] = 0
count p (x ∷ xs) = (if p x then 1 else 0) + count p xs

pub count-none {ℓ} : {A : Type ℓ} (p : A → Bool) (xs : List A) → any p xs ≡ false → count p xs ≡ 0
unfolding count any
count-none p [] h = refl
count-none p (x ∷ xs) h = ground (arith, h, count-none p xs)

pub count-append {ℓ} :
    {A : Type ℓ} (p : A → Bool) (xs ys : List A) → count p (xs ++ ys) ≡ count p xs + count p ys
unfolding count
count-append p [] ys = omega arith
count-append p (x ∷ xs) ys = ground (arith, count-append p xs ys)

-- A function under which no row gains the test keeps the count from growing.
pub count-update-le :
    (p : Row → Bool) (n : ℕ) (f : Row → Row) (rows : List Row)
    → ((r : Row) → p (f r) ≡ false)
    → count p (update n f rows) ≤ count p rows
unfolding count update
count-update-le p n f [] h = omega arith
count-update-le p n f (r ∷ rows) h = ground (arith, h r, count-update-le p n f rows h)

pub count-map-le :
    (p : Row → Bool) (f : Row → Row) (rows : List Row)
    → ((r : Row) → p (f r) ≡ true → p r ≡ true)
    → count p (map f rows) ≤ count p rows
unfolding count
count-map-le p f [] h = omega arith
count-map-le p f (r ∷ rows) h = ground (arith, h r, count-map-le p f rows h)

-- A weaker test counts more.
pub count_mono {ℓ} :
    {A : Type ℓ} (p q : A → Bool) (xs : List A)
    → ((x : A) → p x ≡ true → q x ≡ true)
    → count p xs ≤ count q xs
unfolding count
count_mono p q [] h = omega arith
count_mono p q (x ∷ xs) h = ground (arith, h x, count_mono p q xs h)

pub ids-map :
    (f : Row → Row) (rows : List Row) → ((r : Row) → (f r).id ≡ r.id) → ids (map f rows) ≡ ids rows
unfolding ids
ids-map f [] h = refl
ids-map f (r ∷ rows) h = ground (arith, h r, ids-map f rows h)

pub ids-append : (xs ys : List Row) → ids (xs ++ ys) ≡ ids xs ++ ids ys
unfolding ids
ids-append [] ys = refl
ids-append (x ∷ xs) ys = ap (λ ns. x.id ∷ ns) (ids-append xs ys)

All-bound : (n m : ℕ) (ns : List ℕ) → n ≤ m → All (λ k. k < n) ns → All (λ k. k < m) ns
All-bound n m [] h a = tt
All-bound n m (k ∷ ns) h a = (omega (arith, a.0), All-bound n m ns h a.1)

Ascending-snoc :
    (ns : List ℕ) (n : ℕ) → Ascending ns → All (λ k. k < n) ns → Ascending (ns ++ (n ∷ []))
Ascending-snoc [] n a h = (tt, tt)
Ascending-snoc (m ∷ ns) n a h =
    (All-append (λ k. m < k) ns (n ∷ []) a.0 (h.0, tt), Ascending-snoc ns n a.1 h.1)

-- The next id stands behind every other.
pub Ascending-next :
    (ns : List ℕ) (n : ℕ)
    → Ascending ns
    → All (λ k. k < n) ns
    → Ascending (ns ++ (n ∷ [])) × All (λ k. k < suc n) (ns ++ (n ∷ []))
Ascending-next ns n a h = (
  Ascending-snoc ns n a h,
  All-append (λ k. k < suc n) ns (n ∷ []) (All-bound n (suc n) ns (omega arith) h)
      (omega arith, tt),
)

pub update_absent :
    (n : ℕ) (f : Row → Row) (rows : List Row) → All (λ m. n < m) (ids rows) → update n f rows ≡ rows
unfolding update ids
update_absent n f [] h = refl
update_absent n f (r ∷ rows) h = ground (arith, h.0, update_absent n f rows h.1)

-- An update reaches one row, so the count grows by one at most.
pub count-update-suc :
    (p : Row → Bool) (n : ℕ) (f : Row → Row) (rows : List Row)
    → Ascending (ids rows)
    → count p (update n f rows) ≤ suc (count p rows)
unfolding count update ids
count-update-suc p n f [] h = omega arith
count-update-suc p n f (r ∷ rows) h = elim (Bool-cases (r.id == n)) [
  | inl e ↦ ground (
    arith,
    e,
    update_absent n f rows (subst (λ m. All (λ k. m < k) (ids rows)) ((==_iff r.id n).0 e) h.0),
  )
  | inr e ↦ ground (arith, e, count-update-suc p n f rows h.1)
]

pub mem-below :
    (n : ℕ) (q : Row) (rows : List Row) → All (λ m. n < m) (ids rows) → Member q rows → n < q.id
unfolding ids
mem-below n q [] h m = elim m [ ]
mem-below n q (r ∷ rows) h (here e) = subst (λ x. n < x.id) (sym e) h.0
mem-below n q (r ∷ rows) h (there m) = mem-below n q rows h.1 m

-- The row that it reaches decides whether the count grows.
pub count-update-Member :
    (p : Row → Bool) (q : Row) (f : Row → Row) (rows : List Row)
    → Ascending (ids rows)
    → Member q rows
    → p (f q) ≡ false
    → count p (update q.id f rows) ≤ count p rows
unfolding count update ids
count-update-Member p q f [] h m k = elim m [ ]
count-update-Member p q f (r ∷ rows) h (here e) k =
    ground (arith, k, e, update_absent r.id f rows h.0)
count-update-Member p q f (r ∷ rows) h (there m) k =
    ground (arith, mem-below r.id q rows h.0 m, count-update-Member p q f rows h.1 m k)
