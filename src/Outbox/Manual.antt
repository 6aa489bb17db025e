-- ===== src/Outbox/Manual.antt =====
-- internal/store lifecycle.go `CancelDeliveries` and inspection.go `Retry`: what an operator does to
-- intents, and the operations together as steps of the store.
use ding.Base.{
  ℕ, String, Bool, true, false, ◌&&◌, List, [], ◌∷◌, ◌++◌, none, some, map, str_eq, if◌then◌else◌,
  Result, ok, err,
}
use ding.Delivery.Http as Sent
use ding.Outbox.Rows.{
  Status, pending, permanent, exhausted, canceled, Row, Stream, Attempt, Store, is_live, by_id,
  update, activate, settle,
}
use ding.Outbox.Operations.{with_attempt, Draft, enqueue, claim, finish}

abbrev pub of_watch : String → Row → Bool
of_watch w r = is_live r.status && str_eq r.watch_id w

unfoldable pub cancel_row : String → Row → Row
cancel_row w r =
    if of_watch w r
    then record r {
      status = canceled;
      lease_token = "";
      lease_until = 0;
      last_error = "explicit cancellation";
    }
    else r

cancel_log : String → ℕ → List Row → List Attempt
cancel_log w now [] = []
cancel_log w now (r ∷ rows) =
    let rest = cancel_log w now rows in
    if of_watch w r
    then with_attempt r.id r.attempts now "canceled" "explicit cancellation" ∷ rest
    else rest

-- The trigger of each canceled row, on the rows that are left.
settle_all : String → List Row → List Row → List Stream → List Stream
unfolding settle
settle_all w rows [] streams = streams
settle_all w rows (r ∷ before) streams =
    let rest = settle_all w rows before streams in
    if of_watch w r then settle rows r.watch_id r.destination_id rest else rest

unfoldable pub cancel : Store → String → ℕ → Store
unfolding cancel_row cancel_log settle_all
cancel st w now =
    let rows' = map (cancel_row w) st.rows in
    record st {
      rows = rows';
      streams = settle_all w rows' st.rows st.streams;
      log = st.log ++ cancel_log w now st.rows;
    }

unfoldable pub may_retry : Status → Bool
may_retry permanent = true
may_retry exhausted = true
may_retry canceled = true
may_retry _ = false

unfoldable pub retry_row : ℕ → Row → Row
retry_row now r = record r {
  status = pending;
  attempts = 0;
  next_at = now;
  retry_started_at = now;
  last_error = "";
}

unfoldable pub retried : Store → Row → ℕ → Store
unfolding update retry_row activate
retried st r now = record st {
  rows = update r.id (retry_row now) st.rows;
  streams = activate r.watch_id r.destination_id st.streams;
  log =
      st.log ++ (with_attempt r.id r.attempts now "manual_retry" "new delivery policy cycle" ∷ []);
}

unfoldable pub retry : Store → ℕ → ℕ → Result Store
unfolding by_id may_retry retried
retry st id now = elim (by_id id st.rows) [
  | none ↦ err "not found"
  | some r ↦ if may_retry r.status then ok (retried st r now) else err "revision conflict"
]

-- The calls that change the outbox, each with the time that it passes.
pub data Call : Type 0 where
  enqueued : Draft → Call
  claimed : (now lease : ℕ) → (token : String) → Call
  acknowledged : Row → Sent.Result → (next now : ℕ) → Call
  cancelled : String → ℕ → Call
  requeued : (id now : ℕ) → Call

-- A transaction that fails is rolled back.
unfoldable pub committed : Store → Result Store → Store
committed st (ok st') = st'
committed st (err e) = st

abbrev pub second_of : {A : Type 0} → Result (A × Store) → Result Store
second_of (ok r) = ok r.1
second_of (err e) = err e

unfoldable pub step : (String → String → Bool) → Call → Store → Store
unfolding committed
step less (enqueued d) st = committed st (second_of (enqueue st d))
step less (claimed now lease token) st = committed st (second_of (claim less st now lease token))
step less (acknowledged i result next now) st = committed st (finish st i result next now)
step less (cancelled w now) st = cancel st w now
step less (requeued id now) st = committed st (retry st id now)
