-- ===== src/Outbox/Exclusion.antt =====
-- Every call keeps the table keyed and its leases exclusive.
use ding.Base.{
  ℕ, suc, ◌+◌, ◌≡◌, ◌≤◌, ◌<◌, refl, sym, subst, String, Bool, false, ◌&&◌, [], ◌∷◌, Option, none,
  some, All, ◌==◌, if◌then◌else◌, arith, str_eq, Each, Result, ok, err,
}
use ding.Base.Ensures.{Ensures, Ensures-if}
use ding.Delivery.Http as Sent
use ding.Outbox.Rows.{Row, Store, Stream, any, by_id, holds, is_leased}
use ding.Outbox.Operations.{
  Draft, drafted, queued, enqueue, select, lease_row, granted, claim, outcome_status, finish_row,
  finished, is_owner, finish,
}
use ding.Outbox.Manual.{
  cancel_row, cancel, may_retry, retry_row, retried, retry, Call, enqueued, claimed, acknowledged,
  cancelled, requeued, committed, second_of, step,
}
use ding.Outbox.Ids.{
  ids, Ascending, Keyed, count, ids-update, ids-map, ids-append, Ascending-next, count-append,
  count-map-le, count_mono, count-update-le,
}
use ding.Outbox.Leases.{Exclusive, Chosen, select-Chosen, granted-count}

pub record Safe (t : ℕ) (st : Store) : Type 0 where
  pub keyed : Keyed st
  pub exclusive : Exclusive t st

-- Time passes, and leases end.
pub Exclusive-mono : (t t' : ℕ) (st : Store) → t ≤ t' → Exclusive t st → Exclusive t' st
unfolding Exclusive
Exclusive-mono t t' st h e w d v = omega (
  arith,
  e w d v,
  count_mono (holds w d v t') (holds w d v t) st.rows (λ r k. ground (arith, h, k)),
)

-- Rows under the same ids, none of which gained a lease.
kept :
    (t : ℕ) (st st' : Store)
    → ids st'.rows ≡ ids st.rows
    → st'.next_id ≡ st.next_id
    → ((w d v : String) → count (holds w d v t) st'.rows ≤ count (holds w d v t) st.rows)
    → Safe t st
    → Safe t st'
unfolding Exclusive
kept t st st' i n c s = record {
  keyed = record {
    ascending = subst Ascending (sym i) s.keyed.ascending;
    below =
        subst (λ m. All (λ k. k < m) (ids st'.rows)) (sym n)
          (subst (All (λ k. k < st.next_id)) (sym i) s.keyed.below);
  };
  exclusive = λ w d v. omega (arith, c w d v, s.exclusive w d v);
}

queued-Safe : (t : ℕ) (st : Store) (d : Draft) → Safe t st → Safe t (queued st d)
unfolding queued drafted Exclusive ids count
queued-Safe t st d s =
    let same = ids-append st.rows (drafted st.next_id d ∷ []) in
    let next = Ascending-next (ids st.rows) st.next_id s.keyed.ascending s.keyed.below in
    record {
      keyed = record {
        ascending = subst Ascending (sym same) next.0;
        below = subst (All (λ k. k < suc st.next_id)) (sym same) next.1;
      };
      exclusive = λ w d' v.
          rw (count-append (holds w d' v t) st.rows (drafted st.next_id d ∷ []))
            (omega (arith, s.exclusive w d' v));
    }

enqueue-Safe :
    (t : ℕ) (st : Store) (d : Draft) → Safe t st → Ensures (λ x. Safe t x.1) (enqueue st d)
unfolding enqueue
enqueue-Safe t st d s =
    Ensures-if {A = ℕ × Store} (λ x. Safe t x.1)
      (any (λ r. str_eq r.event_id d.event_id && str_eq r.destination_id d.destination_id) st.rows)
      (err "constraint failed") (ok (st.next_id, queued st d)) (λ _. tt) (λ _. queued-Safe t st d s)

outcome-unleased : (o : Sent.Outcome) → is_leased (outcome_status o) ≡ false
unfolding outcome_status
outcome-unleased Sent.delivered = refl
outcome-unleased Sent.retryable = refl
outcome-unleased Sent.permanent = refl
outcome-unleased Sent.exhausted = refl
outcome-unleased Sent.canceled = refl

finished-Safe :
    (t : ℕ) (st : Store) (i : Row) (result : Sent.Result) (next now : ℕ)
    → Safe t st
    → Safe t (finished st i result next now)
unfolding finished finish_row
finished-Safe t st i result next now s =
    kept t st (finished st i result next now)
      (ids-update i.id (finish_row result next) st.rows (λ r. refl)) refl
      (λ w d v.
        count-update-le (holds w d v t) i.id (finish_row result next) st.rows
          (λ r. ground (arith, outcome-unleased result.outcome)))
      s

cancel-Safe : (t : ℕ) (st : Store) (w : String) (now : ℕ) → Safe t st → Safe t (cancel st w now)
unfolding cancel cancel_row
cancel-Safe t st w now s =
    kept t st (cancel st w now) (ids-map (cancel_row w) st.rows (λ r. ground arith)) refl
      (λ w' d v. count-map-le (holds w' d v t) (cancel_row w) st.rows (λ r k. ground (arith, k))) s

retried-Safe : (t : ℕ) (st : Store) (r : Row) (now : ℕ) → Safe t st → Safe t (retried st r now)
unfolding retried retry_row
retried-Safe t st r now s =
    kept t st (retried st r now) (ids-update r.id (retry_row now) st.rows (λ r. refl)) refl
      (λ w d v. count-update-le (holds w d v t) r.id (retry_row now) st.rows (λ r. refl)) s

granted-Safe :
    (st : Store) (now until : ℕ) (token : String) (r : Row)
    → Chosen st now r
    → Safe now st
    → Safe now (granted st token until r)
unfolding granted lease_row Exclusive
granted-Safe st now until token r c s = record {
  keyed = record {
    ascending =
        subst Ascending (sym (ids-update r.id (lease_row token until) st.rows (λ r. refl)))
          s.keyed.ascending;
    below =
        subst (All (λ k. k < st.next_id))
          (sym (ids-update r.id (lease_row token until) st.rows (λ r. refl))) s.keyed.below;
  };
  exclusive =
      λ w d v. granted-count st now until token r w d v s.keyed.ascending c (s.exclusive w d v);
}

claim-Safe :
    (less : String → String → Bool) (st : Store) (now lease : ℕ) (token : String)
    → Safe now st
    → Ensures (λ x. Safe now x.1) (claim less st now lease token)
unfolding claim
claim-Safe less st now lease token s =
    Ensures-if {A = Option Row × Store} (λ x. Safe now x.1) (lease == 0)
      (err "lease must be positive")
      (elim (select less st now st.streams) [
        | none ↦ ok (none, st)
        | some (s', r) ↦
            ok (some (lease_row token (now + lease) r), granted st token (now + lease) r)
      ])
      (λ _. tt) (λ _. cases (select less st now st.streams) (select-Chosen less st now st.streams))
  where
    cases :
        (o : Option (Stream × Row))
        → Each {A = Stream × Row} (λ x. Chosen st now x.1) o
        → Ensures {A = Option Row × Store}
            (λ x. Safe now x.1)
            (elim o [
              | none ↦ ok (none, st)
              | some (s', r) ↦
                  ok (some (lease_row token (now + lease) r), granted st token (now + lease) r)
            ])
    cases none c = s
    cases (some (s', r)) c = granted-Safe st now (now + lease) token r c s

finish-Safe :
    (t : ℕ) (st : Store) (i : Row) (result : Sent.Result) (next now : ℕ)
    → Safe t st
    → Ensures (Safe t) (finish st i result next now)
unfolding finish
finish-Safe t st i result next now s = cases (by_id i.id st.rows)
  where
    cases :
        (o : Option Row)
        → Ensures (Safe t) (elim o [
          | none ↦ err "stale generation"
          | some r ↦
              if is_owner i r then ok (finished st i result next now) else err "stale generation"
        ])
    cases none = tt
    cases (some r) =
        Ensures-if (Safe t) (is_owner i r) (ok (finished st i result next now))
          (err "stale generation") (λ _. finished-Safe t st i result next now s) (λ _. tt)

retry-Safe : (t : ℕ) (st : Store) (id now : ℕ) → Safe t st → Ensures (Safe t) (retry st id now)
unfolding retry
retry-Safe t st id now s = cases (by_id id st.rows)
  where
    cases :
        (o : Option Row)
        → Ensures (Safe t) (elim o [
          | none ↦ err "not found"
          | some r ↦ if may_retry r.status then ok (retried st r now) else err "revision conflict"
        ])
    cases none = tt
    cases (some r) =
        Ensures-if (Safe t) (may_retry r.status) (ok (retried st r now)) (err "revision conflict")
          (λ _. retried-Safe t st r now s) (λ _. tt)

committed-lem :
    (P : Store → Type 0) (st : Store) (r : Result Store) → P st → Ensures P r → P (committed st r)
unfolding committed
committed-lem P st (ok st') h k = k
committed-lem P st (err e) h k = h

second_lem :
    {A : Type 0} (P : Store → Type 0) (r : Result (A × Store))
    → Ensures (λ x. P x.1) r
    → Ensures P (second_of r)
second_lem P (ok r) h = h
second_lem P (err e) h = tt

-- A claim reads the clock, and the other calls do not look at leases' times.
unfoldable pub clock : ℕ → Call → ℕ
clock t (claimed now lease token) = now
clock t _ = t

pub step-Safe :
    (less : String → String → Bool) (t : ℕ) (c : Call) (st : Store)
    → t ≤ clock t c
    → Safe t st
    → Safe (clock t c) (step less c st)
unfolding step clock
step-Safe less t (enqueued d) st h s =
    committed-lem (Safe t) st _ s (second_lem (Safe t) (enqueue st d) (enqueue-Safe t st d s))
step-Safe less t (claimed now lease token) st h s =
    let s' : Safe now st = record {
      keyed = s.keyed;
      exclusive = Exclusive-mono t now st h s.exclusive;
    } in
    committed-lem (Safe now) st _ s' (
      second_lem (Safe now) (claim less st now lease token) (claim-Safe less st now lease token s'))
step-Safe less t (acknowledged i result next now) st h s =
    committed-lem (Safe t) st _ s (finish-Safe t st i result next now s)
step-Safe less t (cancelled w now) st h s = cancel-Safe t st w now s
step-Safe less t (requeued id now) st h s = committed-lem (Safe t) st _ s (retry-Safe t st id now s)
