-- ===== src/Runtime/Tables.antt =====
-- internal/store/records.go, push.go and lifecycle.go, with their statements: the rows of one watch,
-- and the statements that an acceptance runs on them. Entities and timers are maps from keys; the
-- outbox is that of the workspace. Times are nanoseconds and 0 is no time.
use ding.Base.{
  ℕ, suc, String, Bool, true, false, ◌&&◌, not, List, [], ◌∷◌, ◌++◌, Option, none, some, ltb, ◌==◌,
  str_eq, if◌then◌else◌, Result, ok, err, length, keep,
}
use ding.Base.Maps.{find, put, remove}
use ding.Watch.{Observation, Event}
use ding.Condition.Model.{State, Evaluator}
use ding.Outbox.Rows as outbox

pub data Phase : Type 0 where
  running paused deleted : Phase

abbrev pub is_running : Phase → Bool
is_running running = true
is_running _ = false

abbrev pub is_deleted : Phase → Bool
is_deleted deleted = true
is_deleted _ = false

-- A destination of a watch, with the event types that it receives.
pub record Target : Type 0 where
  pub ref : String
  pub kinds : List String

-- What the runtime reads of a compiled plan. `evaluator` is what `condition.New` makes of the
-- definition; `every` is 0 where the source names no interval; `logs_retention` is `none` where
-- the source is not a log, and 0 where its text is no positive duration.
pub record Plan (F : Type 0) : Type 0 where
  pub revision : String
  pub evaluator : Evaluator F
  pub max_outputs : ℕ
  pub max_bytes : ℕ
  pub max_entities : ℕ
  pub every : ℕ
  pub targets : List Target
  pub logs_retention : Option ℕ

pub record WatchRecord (F : Type 0) : Type 0 where
  pub lifetime : String
  pub plan : Plan F
  pub generation : ℕ
  pub status : Phase
  pub next_at : ℕ
  pub cursor : String
  pub last_input_at : ℕ
  pub last_error : String

pub record Timer : Type 0 where
  pub generation : ℕ
  pub due : ℕ

pub record Receipt : Type 0 where
  pub generation : ℕ
  pub input_id : String
  pub first : ℕ
  pub last : ℕ
  pub expires : ℕ

pub record PushReceipt : Type 0 where
  pub lifetime : String
  pub producer : String
  pub key : String
  pub digest : String
  pub acceptance_id : String
  pub first : ℕ
  pub last : ℕ
  pub accepted_at : ℕ
  pub expires : ℕ

pub record Input (F : Type 0) : Type 0 where
  pub generation : ℕ
  pub input_id : String
  pub body : Observation F

-- What `SaveReplay` keeps of an event: `replay.Checkpoint`.
pub record Checkpoint (F : Type 0) : Type 0 where
  pub prior : State F
  pub input : Observation F
  pub recovery : Bool

-- A row of events: one that an evaluation emitted, or that of a lifecycle action.
pub data Entry (F : Type 0) : Type 0 where
  emitted : Event F → Entry F
  lifecycle : String → String → String → ℕ → Entry F

abbrev pub entry_id : {F : Type 0} → Entry F → String
entry_id (emitted e) = e.id
entry_id (lifecycle id revision kind at) = id

-- `last_sequence` is the largest sequence given out.
pub record Db (F : Type 0) : Type 0 where
  pub watch : WatchRecord F
  pub entities : List (String × State F)
  pub timers : List (String × Timer)
  pub receipts : List Receipt
  pub pushes : List PushReceipt
  pub inputs : List (Input F)
  pub last_sequence : ℕ
  pub events : List (Entry F)
  pub replays : List (String × Checkpoint F)
  pub outbox : outbox.Store

abbrev pub stale : String
stale = "stale generation"

abbrev pub quota : String
quota = "resource quota exceeded"

-- INSERT ... ON CONFLICT DO UPDATE, where `same` finds the row in conflict.
unfoldable pub upsert : {A : Type 0} → (A → Bool) → A → List A → List A
upsert same a rows = keep (λ r. not (same r)) rows ++ (a ∷ [])

abbrev pub receipt_of : ℕ → String → Receipt → Bool
receipt_of generation input r = (r.generation == generation) && str_eq r.input_id input

abbrev pub push_of : String → String → String → PushReceipt → Bool
push_of lifetime producer key r =
    str_eq r.lifetime lifetime && (str_eq r.producer producer && str_eq r.key key)

module _ {F : Type 0} where
  -- `Checkpoint`: no row changes unless the watch runs in this generation.
  unfoldable pub checkpoint : ℕ → ℕ → ℕ → String → Db F → Result (Db F)
  checkpoint generation next now cursor db =
      let w = db.watch in
      if (w.generation == generation) && is_running w.status
      then ok record db {
        watch = record w { next_at = next; last_input_at = now; cursor = cursor; last_error = "" };
      }
      else err stale

  unfoldable pub with_error : String → Db F → Db F
  with_error detail db = let w = db.watch in record db { watch = record w { last_error = detail } }

  -- `LastError` without a time.
  unfoldable pub last_error : ℕ → String → Db F → Db F
  unfolding with_error
  last_error generation detail db =
      if db.watch.generation == generation then with_error detail db else db

  -- `Receipt`.
  unfoldable pub receipt : ℕ → String → ℕ → Db F → Option Receipt
  receipt generation input now db =
      outbox.first (λ r. receipt_of generation input r && ltb now r.expires) db.receipts

  -- `SaveReceipt`.
  unfoldable pub save_receipt : Receipt → Db F → Db F
  unfolding upsert
  save_receipt r db = record db {
    receipts = upsert (receipt_of r.generation r.input_id) r db.receipts;
  }

  -- `PushReceipt`: `none` is ErrNotFound.
  unfoldable pub push_receipt :
      String → String → String → String → ℕ → Db F → Result (Option PushReceipt)
  push_receipt lifetime producer key digest now db =
      elim (outbox.first (λ r. push_of lifetime producer key r && ltb now r.expires) db.pushes) [
        | none ↦ ok none
        | some r ↦
            if str_eq digest r.digest
            then ok (some r)
            else err "idempotency key reused with different request bytes"
      ]

  -- `PushReceiptCount`: the receipts that have not expired.
  unfoldable pub push_receipt_count : ℕ → Db F → ℕ
  push_receipt_count now db = length (keep (λ r. ltb now r.expires) db.pushes)

  -- `SavePushReceipt`, its first statement.
  unfoldable pub save_push_receipt : PushReceipt → Db F → Db F
  unfolding upsert
  save_push_receipt r db = record db {
    pushes = upsert (push_of r.lifetime r.producer r.key) r db.pushes;
  }

  -- `SaveTimer`, for the kind "missing", the only one.
  unfoldable pub save_timer : String → Timer → Db F → Db F
  save_timer key timer db = record db { timers = put key timer db.timers }

  unfoldable pub timer_gone : String → Timer → Option Timer → Db F → Db F
  timer_gone key timer none db = db
  timer_gone key timer (some t) db =
      if (t.generation == timer.generation) && (t.due == timer.due)
      then record db { timers = remove key db.timers }
      else db

  -- `DeleteTimer`: the row goes only if it is still this timer.
  unfoldable pub delete_timer : String → Timer → Db F → Db F
  unfolding timer_gone
  delete_timer key timer db = timer_gone key timer (find key db.timers) db

  -- `saveEntityData`, for every state that is pending.
  unfoldable pub save_all :
      List (String × State F) → List (String × State F) → List (String × State F)
  save_all [] rows = rows
  save_all ((k, s) ∷ pending) rows = put k s (save_all pending rows)

  -- `SaveEntities`.
  unfoldable pub save_entities : List (String × State F) → Db F → Db F
  unfolding save_all
  save_entities pending db = record db { entities = save_all pending db.entities }

  -- `DeleteEntity`.
  unfoldable pub delete_entity : String → Db F → Db F
  delete_entity key db = record db { entities = remove key db.entities }

  -- The database with one more input, whose sequence is the next one.
  unfoldable pub with_input : ℕ → String → Observation F → Db F → Db F
  with_input generation input o db = record db {
    inputs =
        db.inputs
        ++ (record {
          generation = generation;
          input_id = input;
          body = record o { sequence = suc db.last_sequence };
        }
            ∷ []);
    last_sequence = suc db.last_sequence;
  }

  -- `AppendObservation`: an input identity stands once in a generation.
  unfoldable pub append_observation : ℕ → String → Observation F → Db F → Result (ℕ × Db F)
  unfolding with_input
  append_observation generation input o db =
      if outbox.any (λ (i : Input F). (i.generation == generation) && str_eq i.input_id input)
        db.inputs
      then err "constraint failed"
      else ok (suc db.last_sequence, with_input generation input o db)

  -- `AppendEvent`: an identity stands once.
  unfoldable pub append_event : Entry F → Db F → Result (Db F)
  append_event e db =
      if outbox.any (λ (d : Entry F). str_eq (entry_id d) (entry_id e)) db.events
      then err "constraint failed"
      else ok record db { events = db.events ++ (e ∷ []) }

  -- `SaveReplay`.
  unfoldable pub save_replay : String → Checkpoint F → Db F → Result (Db F)
  save_replay id c db =
      if outbox.any (λ (r : String × Checkpoint F). str_eq r.0 id) db.replays
      then err "constraint failed"
      else ok record db { replays = db.replays ++ ((id, c) ∷ []) }
