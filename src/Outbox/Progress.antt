-- ===== src/Outbox/Progress.antt =====
-- A claim gives an intent exactly when one is due.
use ding.Base.{
  ℕ, ◌+◌, ◌≡◌, ◌<◌, refl, sym, subst, ap, String, Bool, true, false, not, List, [], ◌∷◌, Option,
  none, some, if◌then◌else◌, arith, ◌==◌, Member, here, there, Result, ok, err, ◌↔◌, ◌∙◌, Each,
  if_cases, Bool-cases, inl, inr,
}
use mathlib.Core.Option.{some-injective}
use ding.Outbox.Rows.{Row, Store, Stream, first, live_in}
use ding.Outbox.Ids.{Keyed}
use ding.Outbox.Due.{Due, Asked, Due-Asked, Asked-Due}
use ding.Outbox.Operations.{
  claimable, candidate, sooner, comes_before, select, lease_row, granted, claim,
}

unfoldable pub gives : Result (Option Row × Store) → Bool
gives (err e) = false
gives (ok (none, st)) = false
gives (ok (some i, st)) = true

abbrev is_some {ℓ} : {A : Type ℓ} → Option A → Bool
is_some none = false
is_some (some x) = true

candidate_due :
    (st : Store) (now : ℕ) (s : Stream) (r : Row)
    → s.active ≡ true
    → first (live_in s.watch_id s.destination_id) st.rows ≡ some r
    → claimable st now r ≡ true
    → is_some (candidate st now s) ≡ true
unfolding candidate
candidate_due st now s r a f c =
    cases s.active a (first (live_in s.watch_id s.destination_id) st.rows) f
  where
    cases :
        (b : Bool)
        → b ≡ true
        → (o : Option Row) → o ≡ some r
        → is_some (
            if not b
            then none
            else elim o [ none ↦ none | some r ↦ if claimable st now r then some r else none ])
          ≡ true
    cases false h o k = ground (arith, h)
    cases true h none k = ground (arith, k)
    cases true h (some q) k =
        let e = subst (λ x. claimable st now x ≡ true) (sym (some-injective q r k)) c in
        ap (λ b. is_some (if b then some q else none)) e

-- Conversely, the conditions of a candidate.
candidate-Asked :
    (st : Store) (now : ℕ) (s : Stream) (r : Row) → candidate st now s ≡ some r → Asked st now s r
unfolding candidate
candidate-Asked st now s r h =
    cases s.active refl (first (live_in s.watch_id s.destination_id) st.rows) refl h
  where
    cases :
        (b : Bool)
        → s.active ≡ b
        → (o : Option Row) → first (live_in s.watch_id s.destination_id) st.rows ≡ o
        → (if not b
            then none
            else elim o [ none ↦ none | some q ↦ if claimable st now q then some q else none ])
          ≡ some r
        → Asked st now s r
    cases false a o e k = cc
    cases true a none e k = cc
    cases true a (some q) e k = elim (Bool-cases (claimable st now q)) [
      | inl c ↦
          let same = some-injective q r (sym (ap (λ x. if x then some q else none) c) ∙ k) in
          record {
            active = a;
            head = e ∙ ap some same;
            eligible = subst (λ x. claimable st now x ≡ true) same c;
          }
      | inr c ↦ let gone = sym (ap (λ x. if x then some q else none) c) ∙ k in cc
    ]

module _ (less : String → String → Bool) where
  sooner_some :
      (s : Stream) (r : Row) (o : Option (Stream × Row)) → is_some (sooner less s r o) ≡ true
  unfolding sooner
  sooner_some s r none = refl
  sooner_some s r (some (t, q)) = cases (comes_before less t s)
    where
      cases :
          (b : Bool) → is_some {A = Stream × Row} (if b then some (t, q) else some (s, r)) ≡ true
      cases true = refl
      cases false = refl

  select_due :
      (st : Store) (now : ℕ) (streams : List Stream) (s : Stream)
      → Member s streams
      → is_some (candidate st now s) ≡ true
      → is_some (select less st now streams) ≡ true
  unfolding select
  select_due st now [] s m h = elim m [ ]
  select_due st now (t ∷ streams) s (here e) h =
      cases (candidate st now t) (subst (λ x. is_some (candidate st now x) ≡ true) e h)
    where
      cases :
          (o : Option Row)
          → is_some o ≡ true
          → is_some {A = Stream × Row} (elim o [
            | none ↦ select less st now streams
            | some r ↦ sooner less t r (select less st now streams)
          ])
            ≡ true
      cases none k = ground (arith, k)
      cases (some r) k = sooner_some t r (select less st now streams)
  select_due st now (t ∷ streams) s (there m) h =
      cases (candidate st now t) (select less st now streams) (select_due st now streams s m h)
    where
      cases :
          (o : Option Row) (rest : Option (Stream × Row))
          → is_some rest ≡ true
          → is_some {A = Stream × Row} (elim o [ none ↦ rest | some r ↦ sooner less t r rest ])
            ≡ true
      cases none rest k = k
      cases (some r) rest k = sooner_some t r rest

  -- What is selected is the candidate of a stream of the table.
  sooner_from :
      (P : Stream × Row → Type 0) (s : Stream) (r : Row) (o : Option (Stream × Row))
      → P (s, r)
      → Each P o
      → Each P (sooner less s r o)
  unfolding sooner
  sooner_from P s r none h k = h
  sooner_from P s r (some (t, q)) h k =
      if_cases (Each P) (comes_before less t s) (some (t, q)) (some (s, r)) (λ _. k) (λ _. h)

  select_from :
      (st : Store) (now : ℕ) (streams : List Stream)
      → Each {A = Stream × Row}
          (λ x. Member x.0 streams × (candidate st now x.0 ≡ some x.1))
          (select less st now streams)
  unfolding select
  select_from st now [] = tt
  select_from st now (s ∷ streams) =
      cases (candidate st now s) refl (select less st now streams)
        (later (select less st now streams) (select_from st now streams))
    where
      P : Stream × Row → Type 0
      P x = Member x.0 (s ∷ streams) × (candidate st now x.0 ≡ some x.1)

      later :
          (o : Option (Stream × Row))
          → Each {A = Stream × Row} (λ x. Member x.0 streams × (candidate st now x.0 ≡ some x.1)) o
          → Each P o
      later none h = tt
      later (some x) h = (there h.0, h.1)

      cases :
          (o : Option Row)
          → candidate st now s ≡ o
          → (rest : Option (Stream × Row)) → Each P rest
          → Each P (elim o [ none ↦ rest | some r ↦ sooner less s r rest ])
      cases none e rest k = k
      cases (some r) e rest k = sooner_from P s r rest (here refl, e) k

  gives-some :
      (st : Store) (now lease : ℕ) (token : String)
      → gives (claim less st now lease token) ≡ true
      → is_some (select less st now st.streams) ≡ true
  unfolding claim gives
  gives-some st now lease token h = cases (lease == 0) (select less st now st.streams) h
    where
      cases :
          (b : Bool) (o : Option (Stream × Row))
          → gives (
              if b then err "lease must be positive" else elim o [
                | none ↦ ok (none, st)
                | some (s, r) ↦
                    ok (some (lease_row token (now + lease) r), granted st token (now + lease) r)
              ])
            ≡ true
          → is_some o ≡ true
      cases true o k = cc
      cases false none k = cc
      cases false (some x) k = refl

  some-gives :
      (st : Store) (now lease : ℕ) (token : String)
      → 0 < lease
      → is_some (select less st now st.streams) ≡ true
      → gives (claim less st now lease token) ≡ true
  unfolding claim gives
  some-gives st now lease token l h =
      cases (lease == 0) (ground (arith, l)) (select less st now st.streams) h
    where
      cases :
          (b : Bool)
          → b ≡ false
          → (o : Option (Stream × Row)) → is_some o ≡ true
          → gives (
              if b then err "lease must be positive" else elim o [
                | none ↦ ok (none, st)
                | some (s, r) ↦
                    ok (some (lease_row token (now + lease) r), granted st token (now + lease) r)
              ])
            ≡ true
      cases true z o k = cc
      cases false z none k = cc
      cases false z (some (s, r)) k = refl

  selected-Due :
      (st : Store) (now : ℕ)
      → Keyed st
      → is_some (select less st now st.streams) ≡ true
      → (r : Row) × Due st now r
  selected-Due st now k h = cases (select less st now st.streams) h (select_from st now st.streams)
    where
      cases :
          (o : Option (Stream × Row))
          → is_some o ≡ true
          → Each {A = Stream × Row}
              (λ x. Member x.0 st.streams × (candidate st now x.0 ≡ some x.1))
              o
          → (r : Row) × Due st now r
      cases none e m = cc
      cases (some (s, r)) e m = (r, Asked-Due st now s r k m.0 (candidate-Asked st now s r m.1))

  -- In a table with ascending ids, a claim for a positive time gives an intent exactly when one
  -- is due: the oldest pending or leased intent of an active stream is pending with a next time
  -- that has come or leased with a lease that has run out, every backoff of its destination and
  -- revision has run out, and so has every lease of its own watch, destination and revision. A
  -- live lease that another watch holds on that destination and revision does not matter.
  pub claim-Due :
      (st : Store) (now lease : ℕ) (token : String)
      → 0 < lease
      → Keyed st
      → (gives (claim less st now lease token) ≡ true) ↔ ((r : Row) × Due st now r)
  claim-Due st now lease token l k = (
    λ h. selected-Due st now k (gives-some st now lease token h),
    λ d.
        let a = Due-Asked st now d.0 k d.1 in
        some-gives st now lease token l (
          select_due st now st.streams d.1.stream d.1.listed
            (candidate_due st now d.1.stream d.0 a.active a.head a.eligible)),
  )
