-- ===== src/Outbox/Due.antt =====
-- internal/store outbox.go: when an intent is due, said of the tables and not of the query.
use ding.Base.{
  ℕ, ◌≡◌, ◌≤◌, sym, subst, ◌∙◌, ◌⊎◌, inl, inr, true, ◌&&◌, some, arith, ltb, str_eq, eq_iff, Member,
  Each,
}
use ding.Outbox.Rows.{
  pending, leased, Row, Stream, Backoff, Store, first, live_in, holds, is_backed_off,
}
use ding.Outbox.Operations.{claimable}
use ding.Outbox.Readings.{
  any-none, none-any, is_live-cases, live_cases-is_live, test-Ripe, Ripe-test, claimable-parts,
  parts-claimable, backoff_rested, rested_backoff, holds-free, free-holds, first-oldest,
}
use ding.Outbox.Leases.{first-Member}
use ding.Outbox.Fencing.{first-least}
use ding.Outbox.Ids.{Keyed}

-- A pending intent whose time has come, or a leased one whose lease has run out.
abbrev pub Ripe : ℕ → Row → Type 0
Ripe now r =
    ((r.status ≡ pending) × (r.next_at ≤ now)) ⊎ ((r.status ≡ leased) × (r.lease_until ≤ now))

-- The oldest live intent of an active stream is ripe, no backoff of its destination and revision
-- runs on, and neither does a lease of its own watch, destination and revision. The leases of other
-- watches are not asked for.
pub record Due (st : Store) (now : ℕ) (r : Row) : Type 0 where
  pub stream : Stream
  pub listed : Member stream st.streams
  pub active : stream.active ≡ true
  pub own : (r.watch_id ≡ stream.watch_id) × (r.destination_id ≡ stream.destination_id)
  pub stored : Member r st.rows
  pub oldest :
      (q : Row)
      → Member q st.rows
      → (q.status ≡ pending) ⊎ (q.status ≡ leased)
      → q.watch_id ≡ r.watch_id
      → q.destination_id ≡ r.destination_id
      → r.id ≤ q.id
  pub ripe : Ripe now r
  pub rested :
      (b : Backoff)
      → Member b st.backoffs
      → b.destination_id ≡ r.destination_id
      → b.revision ≡ r.revision
      → b.until ≤ now
  pub free :
      (q : Row)
      → Member q st.rows
      → q.status ≡ leased
      → q.watch_id ≡ r.watch_id
      → q.destination_id ≡ r.destination_id
      → q.revision ≡ r.revision
      → q.lease_until ≤ now

-- What the query asks of a stream and a row.
pub record Asked (st : Store) (now : ℕ) (s : Stream) (r : Row) : Type 0 where
  pub active : s.active ≡ true
  pub head : first (live_in s.watch_id s.destination_id) st.rows ≡ some r
  pub eligible : claimable st now r ≡ true

Due-live :
    (st : Store) (now : ℕ) (r : Row) (u : Due st now r)
    → live_in u.stream.watch_id u.stream.destination_id r ≡ true
Due-live st now r u =
    let live = live_cases-is_live r.status (status u.ripe) in
    ground (
      arith,
      live,
      (eq_iff r.watch_id u.stream.watch_id).1 u.own.0,
      (eq_iff r.destination_id u.stream.destination_id).1 u.own.1,
    )
  where
    status : Ripe now r → (r.status ≡ pending) ⊎ (r.status ≡ leased)
    status (inl h) = inl h.0
    status (inr h) = inr h.0

pub Due-Asked :
    (st : Store) (now : ℕ) (r : Row) → Keyed st → (u : Due st now r) → Asked st now u.stream r
unfolding is_backed_off
Due-Asked st now r k u = record {
  active = u.active;
  head =
      first-oldest (live_in u.stream.watch_id u.stream.destination_id) st.rows r k.ascending
        u.stored (Due-live st now r u)
        (λ q m l.
          u.oldest q m (is_live-cases q.status (ground (arith, l)))
            ((eq_iff q.watch_id u.stream.watch_id).0 (ground (arith, l)) ∙ sym u.own.0)
            ((eq_iff q.destination_id u.stream.destination_id).0 (ground (arith, l))
              ∙ sym u.own.1));
  eligible =
      parts-claimable st now r (Ripe-test r.status r.next_at r.lease_until now u.ripe)
        (none-any
          (λ b.
            (str_eq b.destination_id r.destination_id && str_eq b.revision r.revision)
            && ltb now b.until)
          st.backoffs (λ b m. rested_backoff r.destination_id r.revision now b (u.rested b m)))
        (none-any (holds r.watch_id r.destination_id r.revision now) st.rows
          (λ q m. free-holds r.watch_id r.destination_id r.revision now q (u.free q m)));
}

pub Asked-Due :
    (st : Store) (now : ℕ) (s : Stream) (r : Row)
    → Keyed st
    → Member s st.streams
    → Asked st now s r
    → Due st now r
unfolding is_backed_off
Asked-Due st now s r k m a =
    let parts = claimable-parts st now r a.eligible in
    let live = live_in s.watch_id s.destination_id in
    let found =
      subst (Each (λ x. Member x st.rows × (live x ≡ true))) a.head (first-Member live st.rows) in
    let least =
      subst (Each (λ x. (q : Row) → Member q st.rows → live q ≡ true → x.id ≤ q.id)) a.head
        (first-least live st.rows k.ascending) in
    let watch = (eq_iff r.watch_id s.watch_id).0 (ground (arith, found.1)) in
    let destination = (eq_iff r.destination_id s.destination_id).0 (ground (arith, found.1)) in
    record {
      stream = s;
      listed = m;
      active = a.active;
      own = (watch, destination);
      stored = found.0;
      oldest = λ q n l v w. least q n (
          ground (
            arith,
            live_cases-is_live q.status l,
            (eq_iff q.watch_id s.watch_id).1 (v ∙ watch),
            (eq_iff q.destination_id s.destination_id).1 (w ∙ destination),
          ));
      ripe = test-Ripe r.status r.next_at r.lease_until now parts.0;
      rested = λ b n. backoff_rested r.destination_id r.revision now b (
          any-none
            (λ c.
              (str_eq c.destination_id r.destination_id && str_eq c.revision r.revision)
              && ltb now c.until)
            b st.backoffs parts.1.0 n);
      free = λ q n.
          holds-free r.watch_id r.destination_id r.revision now q
            (any-none (holds r.watch_id r.destination_id r.revision now) q st.rows parts.1.1 n);
    }
