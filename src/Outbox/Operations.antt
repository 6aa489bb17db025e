-- ===== src/Outbox/Operations.antt =====
-- internal/store outbox.go (Enqueue, Claim, Finish), lifecycle.go (CancelDeliveries) and
-- inspection.go (Retry). Each runs in one transaction, so an error leaves the store as it was.
use ding.Base.{
  ℕ, suc, ◌+◌, String, Bool, not, ◌&&◌, ◌||◌, List, [], ◌∷◌, ◌++◌, Option, none, some, ltb, leb,
  ◌==◌, str_eq, if◌then◌else◌, Result, ok, err,
}
use ding.Delivery.Http.{Outcome, is_retryable}
use ding.Delivery.Http as Sent
use ding.Outbox.Rows.{
  Status, pending, leased, delivered, permanent, exhausted, canceled, Row, Stream, Attempt, Store,
  is_live, is_leased, is_pending, live_in, holds, any, first, by_id, update, activate, settle,
  take_turn, back_off, is_backed_off,
}

abbrev pub with_attempt : ℕ → ℕ → ℕ → String → String → Attempt
with_attempt id attempt at outcome detail = record {
  outbox_id = id;
  attempt = attempt;
  at = at;
  outcome = outcome;
  detail = detail;
}

-- What the runtime enqueues.
pub record Draft : Type 0 where
  pub event_id : String
  pub watch_id : String
  pub destination_id : String
  pub revision : String
  pub payload : String
  pub next_at : ℕ
  pub created_at : ℕ

unfoldable pub drafted : ℕ → Draft → Row
drafted id d = record {
  id = id;
  event_id = d.event_id;
  watch_id = d.watch_id;
  destination_id = d.destination_id;
  revision = d.revision;
  payload = d.payload;
  status = pending;
  attempts = 0;
  next_at = d.next_at;
  created_at = d.created_at;
  lease_token = "";
  lease_until = 0;
  last_error = "";
  retry_started_at = 0;
}

unfoldable pub queued : Store → Draft → Store
unfolding drafted activate
queued st d = record st {
  rows = st.rows ++ (drafted st.next_id d ∷ []);
  streams = activate d.watch_id d.destination_id st.streams;
  next_id = suc st.next_id;
}

-- An event is sent once to a destination: the table has the pair as a key.
unfoldable pub enqueue : Store → Draft → Result (ℕ × Store)
unfolding any queued
enqueue st d =
    if any (λ r. str_eq r.event_id d.event_id && str_eq r.destination_id d.destination_id) st.rows
    then err "constraint failed"
    else ok (st.next_id, queued st d)

-- The conditions of claimQuery on the oldest live row of a stream.
unfoldable pub claimable : Store → ℕ → Row → Bool
unfolding any is_backed_off
claimable st now r =
    ((is_pending r.status && leb r.next_at now) || (is_leased r.status && leb r.lease_until now))
    && (not (is_backed_off r.destination_id r.revision now st.backoffs)
        && not (any (holds r.watch_id r.destination_id r.revision now) st.rows))

unfoldable pub candidate : Store → ℕ → Stream → Option Row
unfolding first claimable
candidate st now s =
    if not s.active then none else elim (first (live_in s.watch_id s.destination_id) st.rows) [
      | none ↦ none
      | some r ↦ if claimable st now r then some r else none
    ]

unfoldable pub lease_row : String → ℕ → Row → Row
lease_row token until r = record r {
  status = leased;
  lease_token = token;
  lease_until = until;
  attempts = suc r.attempts;
}

unfoldable pub granted : Store → String → ℕ → Row → Store
unfolding update lease_row take_turn
granted st token until r = record st {
  rows = update r.id (lease_row token until) st.rows;
  streams = take_turn r.watch_id r.destination_id st.streams;
}

-- `text_less` is the order of texts in the database.
module _ (text_less : String → String → Bool) where
  -- ORDER BY last_turn, watch_id, destination_id.
  unfoldable pub comes_before : Stream → Stream → Bool
  comes_before a b =
      ltb a.last_turn b.last_turn
      || ((a.last_turn == b.last_turn)
          && (text_less a.watch_id b.watch_id
              || (str_eq a.watch_id b.watch_id && text_less a.destination_id b.destination_id)))

  unfoldable pub sooner : Stream → Row → Option (Stream × Row) → Option (Stream × Row)
  unfolding comes_before
  sooner s r none = some (s, r)
  sooner s r (some (t, q)) = if comes_before t s then some (t, q) else some (s, r)

  unfoldable pub select : Store → ℕ → List Stream → Option (Stream × Row)
  unfolding candidate sooner
  select st now [] = none
  select st now (s ∷ streams) =
      let rest = select st now streams in
      elim (candidate st now s) [ none ↦ rest | some r ↦ sooner s r rest ]

  -- The intent is the row after the lease; `token` is the text of 24 random bytes.
  unfoldable pub claim : Store → ℕ → ℕ → String → Result (Option Row × Store)
  unfolding select granted
  claim st now lease token =
      if lease == 0 then err "lease must be positive" else elim (select st now st.streams) [
        | none ↦ ok (none, st)
        | some (s, r) ↦
            ok (some (lease_row token (now + lease) r), granted st token (now + lease) r)
      ]

-- The status that an outcome leaves.
unfoldable pub outcome_status : Outcome → Status
outcome_status Sent.delivered = delivered
outcome_status Sent.retryable = pending
outcome_status Sent.permanent = permanent
outcome_status Sent.exhausted = exhausted
outcome_status Sent.canceled = canceled

outcome_text : Outcome → String
outcome_text Sent.delivered = "delivered"
outcome_text Sent.retryable = "retryable"
outcome_text Sent.permanent = "permanent"
outcome_text Sent.exhausted = "exhausted"
outcome_text Sent.canceled = "canceled"

unfoldable pub finish_row : Sent.Result → ℕ → Row → Row
unfolding outcome_status
finish_row result next r = record r {
  status = outcome_status result.outcome;
  next_at = next;
  lease_token = "";
  lease_until = 0;
  last_error = result.detail;
}

abbrev pub backoff_until : Sent.Result → ℕ → ℕ
backoff_until result next =
    if is_retryable result.outcome && ltb result.retry_at next then next else result.retry_at

-- The trigger on the row that the statement updated.
settle_row : List Row → Option Row → List Stream → List Stream
unfolding settle
settle_row rows none streams = streams
settle_row rows (some r) streams = settle rows r.watch_id r.destination_id streams

unfoldable pub finished : Store → Row → Sent.Result → ℕ → ℕ → Store
unfolding update finish_row settle_row by_id back_off outcome_text outcome_status
finished st i result next now =
    let rows' = update i.id (finish_row result next) st.rows in
    let until = backoff_until result next in
    record st {
      rows = rows';
      streams =
          if is_live (outcome_status result.outcome)
          then st.streams
          else settle_row rows' (by_id i.id st.rows) st.streams;
      backoffs =
          if ltb now until
          then back_off i.destination_id i.revision until st.backoffs
          else st.backoffs;
      log =
          st.log
          ++ (with_attempt i.id i.attempts now (outcome_text result.outcome) result.detail ∷ []);
    }

-- The row that an acknowledgment may finalize: leased, and under the same token.
unfoldable pub is_owner : Row → Row → Bool
is_owner i r = is_leased r.status && str_eq r.lease_token i.lease_token

unfoldable pub finish : Store → Row → Sent.Result → ℕ → ℕ → Result Store
unfolding by_id is_owner finished
finish st i result next now = elim (by_id i.id st.rows) [
  | none ↦ err "stale generation"
  | some r ↦ if is_owner i r then ok (finished st i result next now) else err "stale generation"
]
