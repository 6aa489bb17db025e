-- ===== src/Outbox/Leases.antt =====
-- Exclusive leases: at any time one row at most of a watch and a destination's revision is leased
-- beyond it, whatever calls are made.
use ding.Base.{
  ℕ, ◌≡◌, ◌≤◌, refl, sym, subst, inl, inr, String, Bool, true, false, not, List, [], ◌∷◌, Option,
  none, some, if◌then◌else◌, arith, Bool-cases, Each, Each-if, eq_iff, Member, here, there,
}
use ding.Outbox.Rows.{Row, Store, Stream, update, first, any, holds, live_in}
use ding.Outbox.Operations.{claimable, candidate, select, sooner, comes_before, lease_row}
use ding.Outbox.Ids.{ids, Ascending, count, count-none, count-update-suc, count-update-Member}

pub first-Member {ℓ} :
    {A : Type ℓ} (p : A → Bool) (xs : List A) → Each (λ x. Member x xs × (p x ≡ true)) (first p xs)
unfolding first
first-Member p [] = tt
first-Member {A} p (y ∷ ys) = cases (p y) refl (first p ys) (first-Member p ys)
  where
    cases :
        (b : Bool)
        → p y ≡ b
        → (o : Option A) → Each (λ x. Member x ys × (p x ≡ true)) o
        → Each (λ x. Member x (y ∷ ys) × (p x ≡ true)) (if b then some y else o)
    cases true e o h = (here refl, e)
    cases false e none h = tt
    cases false e (some x) h = (there h.0, h.1)

-- What the selection of a stream and a row says of them.
pub record Chosen (st : Store) (now : ℕ) (r : Row) : Type 0 where
  pub stream : Stream
  pub oldest : first (live_in stream.watch_id stream.destination_id) st.rows ≡ some r
  pub eligible : claimable st now r ≡ true

candidate-Chosen : (st : Store) (now : ℕ) (s : Stream) → Each (Chosen st now) (candidate st now s)
unfolding candidate
candidate-Chosen st now s =
    cases s.active (first (live_in s.watch_id s.destination_id) st.rows) refl
  where
    cases :
        (b : Bool) (o : Option Row)
        → first (live_in s.watch_id s.destination_id) st.rows ≡ o
        → Each (Chosen st now) (
            if not b
            then none
            else elim o [ none ↦ none | some r ↦ if claimable st now r then some r else none ])
    cases false o e = tt
    cases true none e = tt
    cases true (some r) e =
        Each-if (Chosen st now) (claimable st now r) (some r)
          (λ k. record { stream = s; oldest = e; eligible = k })

module _ (less : String → String → Bool) where
  sooner-Each :
      (P : Row → Type 0) (s : Stream) (r : Row) (o : Option (Stream × Row))
      → P r
      → Each {A = Stream × Row} (λ x. P x.1) o
      → Each {A = Stream × Row} (λ x. P x.1) (sooner less s r o)
  unfolding sooner
  sooner-Each P s r none h k = h
  sooner-Each P s r (some (t, q)) h k = cases (comes_before less t s)
    where
      cases :
          (b : Bool) → Each {A = Stream × Row} (λ x. P x.1) (if b then some (t, q) else some (s, r))
      cases true = k
      cases false = h

  pub select-Chosen :
      (st : Store) (now : ℕ) (streams : List Stream)
      → Each {A = Stream × Row} (λ x. Chosen st now x.1) (select less st now streams)
  unfolding select
  select-Chosen st now [] = tt
  select-Chosen st now (s ∷ streams) =
      cases (candidate st now s) (select less st now streams) (candidate-Chosen st now s)
        (select-Chosen st now streams)
    where
      cases :
          (o : Option Row) (rest : Option (Stream × Row))
          → Each (Chosen st now) o
          → Each {A = Stream × Row} (λ x. Chosen st now x.1) rest
          → Each {A = Stream × Row}
              (λ x. Chosen st now x.1)
              (elim o [ none ↦ rest | some r ↦ sooner less s r rest ])
      cases none rest h k = k
      cases (some r) rest h k = sooner-Each (Chosen st now) s r rest h k

-- The rows of the stream that hold a lease at `now`, by the revision of the destination.
unfoldable pub Exclusive : ℕ → Store → Type 0
Exclusive now st = (w d v : String) → count (holds w d v now) st.rows ≤ 1

lease_keys :
    (w d v : String) (now until : ℕ) (token : String) (r : Row)
    → holds w d v now (lease_row token until r) ≡ true
    → (r.watch_id ≡ w) × ((r.destination_id ≡ d) × (r.revision ≡ v))
unfolding lease_row
lease_keys w d v now until token r h = (
  (eq_iff r.watch_id w).0 (ground (arith, h)),
  ((eq_iff r.destination_id d).0 (ground (arith, h)), (eq_iff r.revision v).0 (ground (arith, h))),
)

pub claimable-free :
    (st : Store) (now : ℕ) (r : Row)
    → claimable st now r ≡ true
    → any (holds r.watch_id r.destination_id r.revision now) st.rows ≡ false
unfolding claimable
claimable-free st now r h = ground (arith, h)

pub Chosen-Member : (st : Store) (now : ℕ) (r : Row) → Chosen st now r → Member r st.rows
Chosen-Member st now r c =
    let p = live_in c.stream.watch_id c.stream.destination_id in
    (subst (Each (λ x. Member x st.rows × (p x ≡ true))) c.oldest (first-Member p st.rows)).0

-- A lease on the chosen row is the only one of its stream and revision.
pub granted-count :
    (st : Store) (now until : ℕ) (token : String) (r : Row) (w d v : String)
    → Ascending (ids st.rows)
    → Chosen st now r
    → count (holds w d v now) st.rows ≤ 1
    → count (holds w d v now) (update r.id (lease_row token until) st.rows) ≤ 1
granted-count st now until token r w d v a c h =
    elim (Bool-cases (holds w d v now (lease_row token until r))) [
      | inl e ↦
          let k = lease_keys w d v now until token r e in
          rw (sym k.0, sym k.1.0, sym k.1.1)
            (omega (
              arith,
              count-update-suc (holds r.watch_id r.destination_id r.revision now) r.id
                  (lease_row token until) st.rows a,
              count-none (holds r.watch_id r.destination_id r.revision now) st.rows
                  (claimable-free st now r c.eligible),
            ))
      | inr e ↦ omega (
        arith,
        count-update-Member (holds w d v now) r (lease_row token until) st.rows a
            (Chosen-Member st now r c) e,
      )
    ]
