-- ===== src/Outbox/Readings.antt =====
-- The tests of `Claim` (internal/store outbox.go) as facts about the rows and the backoffs.
use ding.Base.{
  ℕ, ◌≡◌, ◌≤◌, refl, sym, subst, ap, ◌∙◌, ◌⊎◌, inl, inr, String, Bool, true, false, ◌&&◌, ◌||◌,
  List, [], ◌∷◌, some, if◌then◌else◌, arith, Bool-cases, leb, ltb, str_eq, eq_iff, Member, here,
  there,
}
use ding.Outbox.Rows.{
  Status, pending, leased, delivered, permanent, exhausted, canceled, Row, Backoff, Store, first,
  is_live, is_leased, is_pending, holds, any, is_backed_off,
}
use ding.Outbox.Operations.{claimable}
use ding.Outbox.Ids.{ids, Ascending, mem-below}

pub any-none {ℓ} :
    {A : Type ℓ} (p : A → Bool) (x : A) (xs : List A) → any p xs ≡ false → Member x xs → p x ≡ false
unfolding any
any-none p x [] h m = elim m [ ]
any-none p x (y ∷ ys) h (here e) = subst (λ z. p z ≡ false) (sym e) (ground (arith, h))
any-none p x (y ∷ ys) h (there m) = any-none p x ys (ground (arith, h)) m

pub none-any {ℓ} :
    {A : Type ℓ} (p : A → Bool) (xs : List A)
    → ((x : A) → Member x xs → p x ≡ false)
    → any p xs ≡ false
unfolding any
none-any p [] h = refl
none-any p (y ∷ ys) h =
    let here_false = h y (here refl) in
    let rest = none-any p ys (λ x m. h x (there m)) in ground (arith, here_false, rest)

is_leased-leased : (s : Status) → is_leased s ≡ true → s ≡ leased
is_leased-leased leased h = refl
is_leased-leased pending h = cc
is_leased-leased delivered h = cc
is_leased-leased permanent h = cc
is_leased-leased exhausted h = cc
is_leased-leased canceled h = cc

pub is_live-cases : (s : Status) → is_live s ≡ true → (s ≡ pending) ⊎ (s ≡ leased)
is_live-cases leased h = inr refl
is_live-cases pending h = inl refl
is_live-cases delivered h = cc
is_live-cases permanent h = cc
is_live-cases exhausted h = cc
is_live-cases canceled h = cc

pub live_cases-is_live : (s : Status) → (s ≡ pending) ⊎ (s ≡ leased) → is_live s ≡ true
live_cases-is_live s (inl e) = ap is_live e
live_cases-is_live s (inr e) = ap is_live e

-- The test of the query on the row alone.
abbrev pub ripe_test : Status → ℕ → ℕ → ℕ → Bool
ripe_test s next until now = (is_pending s && leb next now) || (is_leased s && leb until now)

pub test-Ripe :
    (s : Status) (next until now : ℕ)
    → ripe_test s next until now ≡ true
    → ((s ≡ pending) × (next ≤ now)) ⊎ ((s ≡ leased) × (until ≤ now))
test-Ripe pending next until now h = inl (refl, ground (arith, h))
test-Ripe leased next until now h = inr (refl, ground (arith, h))
test-Ripe delivered next until now h = cc
test-Ripe permanent next until now h = cc
test-Ripe exhausted next until now h = cc
test-Ripe canceled next until now h = cc

pub Ripe-test :
    (s : Status) (next until now : ℕ)
    → ((s ≡ pending) × (next ≤ now)) ⊎ ((s ≡ leased) × (until ≤ now))
    → ripe_test s next until now ≡ true
Ripe-test s next until now (inl (e, l)) =
    subst (λ x. ripe_test x next until now ≡ true) (sym e) (ground (arith, l))
Ripe-test s next until now (inr (e, l)) =
    subst (λ x. ripe_test x next until now ≡ true) (sym e) (ground (arith, l))

-- The three conditions of `claimable`, apart.
pub claimable-parts :
    (st : Store) (now : ℕ) (r : Row)
    → claimable st now r ≡ true
    → (ripe_test r.status r.next_at r.lease_until now ≡ true)
      × ((is_backed_off r.destination_id r.revision now st.backoffs ≡ false)
          × (any (holds r.watch_id r.destination_id r.revision now) st.rows ≡ false))
unfolding claimable
claimable-parts st now r h = (ground (arith, h), (ground (arith, h), ground (arith, h)))

pub parts-claimable :
    (st : Store) (now : ℕ) (r : Row)
    → ripe_test r.status r.next_at r.lease_until now ≡ true
    → is_backed_off r.destination_id r.revision now st.backoffs ≡ false
    → any (holds r.watch_id r.destination_id r.revision now) st.rows ≡ false
    → claimable st now r ≡ true
unfolding claimable
parts-claimable st now r a b c = ground (arith, a, b, c)

-- A backoff and a lease in the tests of the query.
pub backoff_rested :
    (d v : String) (now : ℕ) (b : Backoff)
    → ((str_eq b.destination_id d && str_eq b.revision v) && ltb now b.until) ≡ false
    → b.destination_id ≡ d
    → b.revision ≡ v
    → b.until ≤ now
backoff_rested d v now b h p q =
    ground (arith, h, (eq_iff b.destination_id d).1 p, (eq_iff b.revision v).1 q)

pub rested_backoff :
    (d v : String) (now : ℕ) (b : Backoff)
    → (b.destination_id ≡ d → b.revision ≡ v → b.until ≤ now)
    → ((str_eq b.destination_id d && str_eq b.revision v) && ltb now b.until) ≡ false
rested_backoff d v now b h = elim (Bool-cases (str_eq b.destination_id d && str_eq b.revision v)) [
  | inr e ↦ ground (arith, e)
  | inl e ↦
      let until =
        h ((eq_iff b.destination_id d).0 (ground (arith, e)))
          ((eq_iff b.revision v).0 (ground (arith, e))) in
      ground (arith, e, until)
]

pub holds-free :
    (w d v : String) (now : ℕ) (q : Row)
    → holds w d v now q ≡ false
    → q.status ≡ leased
    → q.watch_id ≡ w
    → q.destination_id ≡ d
    → q.revision ≡ v
    → q.lease_until ≤ now
holds-free w d v now q h s a b c = ground (
  arith,
  h,
  ap is_leased s,
  (eq_iff q.watch_id w).1 a,
  (eq_iff q.destination_id d).1 b,
  (eq_iff q.revision v).1 c,
)

pub free-holds :
    (w d v : String) (now : ℕ) (q : Row)
    → (q.status ≡ leased
        → q.watch_id ≡ w
        → q.destination_id ≡ d
        → q.revision ≡ v
        → q.lease_until ≤ now)
    → holds w d v now q ≡ false
free-holds w d v now q h = elim (Bool-cases (holds w d v now q)) [
  | inr e ↦ e
  | inl e ↦
      let until =
        h (is_leased-leased q.status (ground (arith, e)))
          ((eq_iff q.watch_id w).0 (ground (arith, e)))
          ((eq_iff q.destination_id d).0 (ground (arith, e)))
          ((eq_iff q.revision v).0 (ground (arith, e))) in
      ground (arith, e, until)
]

-- In an ascending table, the match of the least id is the first.
pub first-oldest :
    (p : Row → Bool) (rows : List Row) (r : Row)
    → Ascending (ids rows)
    → Member r rows
    → p r ≡ true
    → ((q : Row) → Member q rows → p q ≡ true → r.id ≤ q.id)
    → first p rows ≡ some r
unfolding first ids
first-oldest p [] r a m h k = elim m [ ]
first-oldest p (y ∷ ys) r a (here e) h k =
    let same = subst (λ z. p z ≡ true) e h in
    ap (λ b. if b then some y else first p ys) same ∙ ap some (sym e)
first-oldest p (y ∷ ys) r a (there m) h k =
    let later = first-oldest p ys r a.1 m h (λ q n l. k q (there n) l) in
    let above = mem-below y.id r ys a.0 m in
    elim (Bool-cases (p y)) [
      | inl e ↦ absurd (omega (arith, above, k y (here refl) e))
      | inr e ↦ ap (λ b. if b then some y else first p ys) e ∙ later
    ]
