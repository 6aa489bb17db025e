-- ===== src/Outbox/Fencing.antt =====
-- What a claim grants: the oldest live intent of its stream, and the only acknowledgment that counts.
use ding.Base.{
  ℕ, ◌+◌, ◌≡◌, ◌≤◌, refl, ap, sym, subst, ◌∙◌, String, Bool, true, false, List, [], ◌∷◌, Option,
  none, some, ◌==◌, if◌then◌else◌, arith, str_eq, eq_iff, Each, Member, here, there, ok, err,
}
use ding.Base.Ensures.{Ensures, Ensures-if, ensured}
use ding.Delivery.Http as Sent
use ding.Outbox.Rows.{Row, Store, Stream, update, first, by_id, live_in}
use ding.Outbox.Operations.{select, lease_row, granted, claim, finished, is_owner, finish}
use ding.Outbox.Ids.{ids, Ascending, Keyed, mem-below}
use ding.Outbox.Leases.{Chosen, select-Chosen, Chosen-Member, first-Member}

pub record Grant (st : Store) (now lease : ℕ) (token : String) (i : Row) (st' : Store)
    : Type 0 where
  pub row : Row
  pub chosen : Chosen st now row
  pub intent : i ≡ lease_row token (now + lease) row
  pub after : st' ≡ granted st token (now + lease) row

pub claim-Grant :
    (less : String → String → Bool) (st : Store) (now lease : ℕ) (token : String)
    → Ensures (λ x. Each (λ i. Grant st now lease token i x.1) x.0) (claim less st now lease token)
unfolding claim
claim-Grant less st now lease token =
    Ensures-if {A = Option Row × Store} (λ x. Each (λ i. Grant st now lease token i x.1) x.0)
      (lease == 0) (err "lease must be positive")
      (elim (select less st now st.streams) [
        | none ↦ ok (none, st)
        | some (s', r) ↦
            ok (some (lease_row token (now + lease) r), granted st token (now + lease) r)
      ])
      (λ _. tt) (λ _. cases (select less st now st.streams) (select-Chosen less st now st.streams))
  where
    cases :
        (o : Option (Stream × Row))
        → Each {A = Stream × Row} (λ x. Chosen st now x.1) o
        → Ensures {A = Option Row × Store}
            (λ x. Each (λ i. Grant st now lease token i x.1) x.0)
            (elim o [
              | none ↦ ok (none, st)
              | some (s', r) ↦
                  ok (some (lease_row token (now + lease) r), granted st token (now + lease) r)
            ])
    cases none c = tt
    cases (some (s', r)) c = record { row = r; chosen = c; intent = refl; after = refl }

by_id-update :
    (q : Row) (f : Row → Row) (rows : List Row)
    → ((r : Row) → (f r).id ≡ r.id)
    → Ascending (ids rows)
    → Member q rows
    → by_id q.id (update q.id f rows) ≡ some (f q)
unfolding by_id first update ids
by_id-update q f [] h a m = elim m [ ]
by_id-update q f (r ∷ rows) h a (here e) = ground (arith, e, h q)
by_id-update q f (r ∷ rows) h a (there m) =
    ground (arith, mem-below r.id q rows a.0 m, by_id-update q f rows h a.1 m)

-- The first match of an ascending table is the oldest.
pub first-least :
    (p : Row → Bool) (rows : List Row)
    → Ascending (ids rows)
    → Each (λ r. (q : Row) → Member q rows → p q ≡ true → r.id ≤ q.id) (first p rows)
unfolding first ids
first-least p [] a = tt
first-least p (r ∷ rows) a = cases (p r) refl (first p rows) (first-least p rows a.1)
  where
    cases :
        (b : Bool)
        → p r ≡ b
        → (o : Option Row) → Each (λ x. (q : Row) → Member q rows → p q ≡ true → x.id ≤ q.id) o
        → Each
            (λ x. (q : Row) → Member q (r ∷ rows) → p q ≡ true → x.id ≤ q.id)
            (if b then some r else o)
    cases true e o h = λ q m l. oldest q m
      where
        oldest : (q : Row) → Member q (r ∷ rows) → r.id ≤ q.id
        oldest q (here k) = subst (λ z. r.id ≤ z.id) (sym k) (omega arith)
        oldest q (there m) = omega (arith, mem-below r.id q rows a.0 m)
    cases false e none h = tt
    cases false e (some x) h = λ q m l. later q m l
      where
        later : (q : Row) → Member q (r ∷ rows) → p q ≡ true → x.id ≤ q.id
        later q (here k) l = ground (arith, e, subst (λ z. p z ≡ true) k l)
        later q (there m) l = h q m l

-- What a claim that gives an intent has done.
pub record Fence (st : Store) (token : String) (i : Row) (st' : Store) : Type 0 where
  pub leased_row : by_id i.id st'.rows ≡ some i
  pub owned : is_owner i i ≡ true
  pub token_set : i.lease_token ≡ token
  pub oldest :
      (q : Row) → Member q st.rows → live_in i.watch_id i.destination_id q ≡ true → i.id ≤ q.id

Chosen-stream :
    (st : Store) (now : ℕ) (r : Row) (c : Chosen st now r)
    → (r.watch_id ≡ c.stream.watch_id) × (r.destination_id ≡ c.stream.destination_id)
Chosen-stream st now r c =
    let p = live_in c.stream.watch_id c.stream.destination_id in
    let h =
      (subst (Each (λ x. Member x st.rows × (p x ≡ true))) c.oldest (first-Member p st.rows)).1 in
    (
      (eq_iff r.watch_id c.stream.watch_id).0 (ground (arith, h)),
      (eq_iff r.destination_id c.stream.destination_id).0 (ground (arith, h)),
    )

Chosen-oldest :
    (st : Store) (now : ℕ) (r : Row)
    → Keyed st
    → Chosen st now r
    → (q : Row) → Member q st.rows
    → live_in r.watch_id r.destination_id q ≡ true
    → r.id ≤ q.id
Chosen-oldest st now r k c q m l =
    let p = live_in c.stream.watch_id c.stream.destination_id in
    let s = Chosen-stream st now r c in
    let same = subst (λ w. live_in w r.destination_id q ≡ true) s.0 l in
    subst (Each (λ x. (q : Row) → Member q st.rows → p q ≡ true → x.id ≤ q.id)) c.oldest
      (first-least p st.rows k.ascending) q m
      (subst (λ d. live_in c.stream.watch_id d q ≡ true) s.1 same)

Chosen-Fence :
    (st : Store) (now until : ℕ) (token : String) (r : Row)
    → Keyed st
    → Chosen st now r
    → Fence st token (lease_row token until r) (granted st token until r)
unfolding granted lease_row is_owner
Chosen-Fence st now until token r k c = record {
  leased_row =
      by_id-update r (lease_row token until) st.rows (λ q. refl) k.ascending
        (Chosen-Member st now r c);
  owned = (eq_iff token token).1 refl;
  token_set = refl;
  oldest = Chosen-oldest st now r k c;
}

claim-Fence :
    (less : String → String → Bool) (st : Store) (now lease : ℕ) (token : String) (i : Row)
    (st' : Store)
    → Keyed st
    → claim less st now lease token ≡ ok (some i, st')
    → Fence st token i st'
claim-Fence less st now lease token i st' k e =
    let g : Grant st now lease token i st' =
      ensured {A = Option Row × Store} (λ x. Each (λ i. Grant st now lease token i x.1) x.0)
        (claim less st now lease token) (claim-Grant less st now lease token) e in
    subst (λ x. Fence st token x st') (sym g.intent)
      (subst (Fence st token (lease_row token (now + lease) g.row)) (sym g.after)
        (Chosen-Fence st now (now + lease) token g.row k g.chosen))

finish_found :
    (st : Store) (i r : Row) (result : Sent.Result) (next now : ℕ)
    → by_id i.id st.rows ≡ some r
    → finish st i result next now
      ≡ (if is_owner i r then ok (finished st i result next now) else err "stale generation")
unfolding finish
finish_found st i r result next now e =
    ap
      (λ o. elim o [
        | none ↦ err "stale generation"
        | some q ↦
            if is_owner i q then ok (finished st i result next now) else err "stale generation"
      ])
      e

-- In a table with ascending ids, the intent that a claim gives is the oldest of the pending and
-- leased intents of its watch and destination.
pub claim-oldest :
    (less : String → String → Bool) (st : Store) (now lease : ℕ) (token : String) (i : Row)
    (st' : Store)
    → Keyed st
    → claim less st now lease token ≡ ok (some i, st')
    → (q : Row) → Member q st.rows
    → live_in i.watch_id i.destination_id q ≡ true
    → i.id ≤ q.id
claim-oldest less st now lease token i st' k e =
    (claim-Fence less st now lease token i st' k e).oldest

-- In a table with ascending ids, after a claim the intent it gave can be acknowledged with any
-- result: the acknowledgment under its token succeeds.
pub claim-finish :
    (less : String → String → Bool) (st : Store) (now lease : ℕ) (token : String) (i : Row)
    (st' : Store)
    → Keyed st
    → claim less st now lease token ≡ ok (some i, st')
    → (result : Sent.Result) (next end : ℕ)
    → finish st' i result next end ≡ ok (finished st' i result next end)
claim-finish less st now lease token i st' k e result next end =
    let f = claim-Fence less st now lease token i st' k e in
    finish_found st' i i result next end f.leased_row ∙ rw f.owned refl

-- In a table with ascending ids, after a claim gave an intent under a token, an acknowledgment of
-- that intent under any other token is refused as stale.
pub claim-finish_stale :
    (less : String → String → Bool) (st : Store) (now lease : ℕ) (token : String) (i : Row)
    (st' : Store)
    → Keyed st
    → claim less st now lease token ≡ ok (some i, st')
    → (j : Row) (result : Sent.Result) (next end : ℕ) → j.id ≡ i.id
    → str_eq token j.lease_token ≡ false
    → finish st' j result next end ≡ err "stale generation"
unfolding is_owner
claim-finish_stale less st now lease token i st' k e j result next end same other =
    let f = claim-Fence less st now lease token i st' k e in
    finish_found st' j i result next end (ap (λ n. by_id n st'.rows) same ∙ f.leased_row)
    ∙ ground (arith, f.token_set, other)
