-- ===== src/Runtime/Accept.antt =====
-- internal/watchrun/app.go: `acceptPush`: its transaction, and what it leaves when it fails.
pub mod Input
pub mod Evaluation
pub mod Rule
pub mod Loop
pub mod Outcome
pub mod Settled
pub mod Frame
pub mod Invariant
pub mod Preserved
pub mod Retry
pub mod Ranges
use Prim.Native.String.{len}
use ding.Base.{
  ℕ, ◌+◌, ◌*◌, String, Bool, true, false, ◌&&◌, ◌||◌, not, List, [], ◌∷◌, Option, none, some, ltb,
  leb, ◌==◌, str_eq, if◌then◌else◌, Result, ok, err, ◌>>=◌, length,
}
use ding.Watch.{Observation}
use ding.Runtime.Tables.{
  Db, WatchRecord, Receipt, PushReceipt, stale, quota, last_error, receipt, save_receipt,
  save_push_receipt,
}
use ding.Runtime.Cache.{Work, fresh_cache, preload, flush}
use ding.Runtime.Emission.{App, pending}
use ding.Runtime.Accept.Input.{
  Batch, PushInput, Accepted, push_gate, fenced, take_timer, unexpected, checkpointed, with_gap,
  stamp_all, append_all, expired, expired_error,
}
use ding.Runtime.Accept.Evaluation.{evaluate_all}

unfoldable pub first_of : {F : Type 0} → List (Observation F) → ℕ
first_of [] = 0
first_of (o ∷ os) = o.sequence

unfoldable pub last_of : {F : Type 0} → List (Observation F) → ℕ
last_of [] = 0
last_of (o ∷ []) = o.sequence
last_of (o ∷ os) = last_of os

abbrev pub hour : ℕ
hour = 3600000000000

-- How long a receipt is kept.
unfoldable pub receipt_ttl : Option ℕ → ℕ
receipt_ttl none = 24 * hour
receipt_ttl (some n) = if n == 0 then hour else n

abbrev pub closing_error : String
closing_error = "runtime is shutting down"

abbrev pub is_none {ℓ} : {A : Type ℓ} → Option A → Bool
is_none none = true
is_none (some a) = false

-- `late` is the time at which a push commits.
module _ {F : Type 0} (app : App F) (given : WatchRecord F) (batch : Batch F) (input : String)
    (push : Option PushInput) (now late : ℕ) where
  unfoldable pub within_bytes : Db F → Result (Db F)
  within_bytes db = if ltb app.max_bytes (app.bytes db) then err quota else ok db

  unfoldable pub push_receipt_of : PushInput → ℕ → ℕ → Db F → PushReceipt
  push_receipt_of p first last db = record {
    lifetime = db.watch.lifetime;
    producer = p.producer;
    key = p.key;
    digest = p.digest;
    acceptance_id = input;
    first = first;
    last = last;
    accepted_at = now;
    expires = now + p.horizon;
  }

  -- The receipt that a push leaves.
  unfoldable pub push_completed : PushInput → ℕ → ℕ → Db F → Result (Db F)
  unfolding within_bytes expired push_receipt_of
  push_completed p first last db =
      if expired app given batch input now p late
      then err expired_error
      else within_bytes (save_push_receipt (push_receipt_of p first last db) db)

  -- The receipt of an input of another kind.
  unfoldable pub own_receipt : ℕ → ℕ → Db F → Receipt
  unfolding receipt_ttl
  own_receipt first last db = record {
    generation = db.watch.generation;
    input_id = input;
    first = first;
    last = last;
    expires = now + receipt_ttl db.watch.plan.logs_retention;
  }

  unfoldable pub completed : ℕ → ℕ → Db F → Result (Db F)
  unfolding push_completed own_receipt
  completed first last db = elim push [
    | some p ↦ push_completed p first last db
    | none ↦ ok (save_receipt (own_receipt first last db) db)
  ]

  -- A revision names one definition: the plan read again is the given one.
  unfoldable pub evaluated : List (Observation F) → Db F → Result (Db F)
  unfolding preload evaluate_all flush within_bytes
  evaluated os db = do
    w ← preload app.runtime given.plan.evaluator os (fresh_cache, db)
    w' ← evaluate_all app given.plan now os w
    within_bytes (flush w').1

  unfoldable pub over_budget : Db F → Bool
  unfolding pending
  over_budget db = leb app.max_bytes (app.bytes db) || leb app.max_pending (pending db.outbox)

  unfoldable pub answer : List (Observation F) → Db F → Accepted × Db F
  unfolding first_of last_of
  answer rows db = (record { first = first_of rows; last = last_of rows; duplicate = false }, db)

  -- A new input: `current` is the database before the checkpoint.
  unfoldable pub appended : Db F → Db F → Result (Accepted × Db F)
  unfolding over_budget evaluated completed answer with_gap stamp_all append_all
  appended current db = if over_budget db then err quota else do
    os ←
        stamp_all app given batch input now 0 current.watch.plan.max_bytes
          (with_gap app given batch input now current)
    (rows, db1) ← append_all app given batch input now 0 db.watch.generation os db
    db2 ← evaluated rows db1
    db3 ← completed (first_of rows) (last_of rows) db2
    ok (answer rows db3)

  unfoldable pub fresh_input : Db F → Db F → Result (Accepted × Db F)
  unfolding appended unexpected checkpointed
  fresh_input current db =
      if unexpected app given batch input now db
      then err stale
      else checkpointed app given batch input now db >>= (λ db'. appended current db')

  -- An input whose receipt is kept changes nothing more.
  unfoldable pub looked_up : Db F → Db F → Result (Accepted × Db F)
  unfolding fresh_input
  looked_up current db = elim (receipt db.watch.generation input now db) [
    | some r ↦ ok (record { first = r.first; last = r.last; duplicate = true }, db)
    | none ↦ fresh_input current db
  ]

  unfoldable pub current_input : Db F → Result (Accepted × Db F)
  unfolding looked_up fenced take_timer
  current_input db =
      if fenced app given batch input now db
      then take_timer app given batch input now db >>= (λ db'. looked_up db db')
      else err stale

  -- The transaction.
  unfoldable pub transaction : Db F → Result (Accepted × Db F)
  unfolding current_input push_gate
  transaction db =
      if app.closing
      then err closing_error
      else push_gate app given batch input now push db
        >>= (λ known. elim known [ some r ↦ ok (r, db) | none ↦ current_input db ])

  -- What is written where the transaction was rolled back.
  unfoldable pub noted : String → Db F → Db F
  noted e db =
      if is_none push && not (str_eq e stale || str_eq e closing_error)
      then last_error given.generation
          (if str_eq e quota then "quota_exceeded" else "acceptance_failed") db
      else db

  unfoldable pub concluded : Result (Accepted × Db F) → Db F → Result Accepted × Db F
  unfolding noted
  concluded (ok (r, db')) db = (ok r, db')
  concluded (err e) db = (err e, noted e db)

  -- `acceptPush`: the receipt or the error, and the database after it.
  unfoldable pub accept : Db F → Result Accepted × Db F
  unfolding concluded transaction
  accept db =
      if app.closing
      then (err closing_error, db)
      else if str_eq input "" || ltb 256 (len input)
      then (err "invalid input identity", db)
      else if (length batch.observations == 0)
          || ltb given.plan.max_outputs (length batch.observations)
      then (err "invalid observation count", db)
      else concluded (transaction db) db
