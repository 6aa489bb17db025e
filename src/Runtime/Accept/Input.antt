-- ===== src/Runtime/Accept/Input.antt =====
-- internal/watchrun/app.go: what `acceptPush` checks of an input before it evaluates it, and the
-- observations that it appends.
use Prim.Native.String.{◌++◌ as append}
use ding.Base.{
  ℕ, suc, String, Bool, true, false, ◌&&◌, ◌||◌, not, List, [], ◌∷◌, Option, none, some, ltb, leb,
  ◌==◌, max, str_eq, if◌then◌else◌, Result, ok, err, ◌>>=◌,
}
use ding.Base.Maps.{find}
use ding.Watch.{end, Observation, gap}
use ding.Runtime.Tables.{
  Db, WatchRecord, is_running, is_deleted, stale, quota, checkpoint, push_receipt,
  push_receipt_count, delete_timer, append_observation,
}
use ding.Runtime.Emission.{App}

-- `source.Batch`; 0 is no time.
pub record Batch (F : Type 0) : Type 0 where
  pub expected_cursor : Option String
  pub fresh_until : ℕ
  pub entity : String
  pub deadline : ℕ
  pub observations : List (Observation F)
  pub cursor : String
  pub retry_at : ℕ

pub record PushInput : Type 0 where
  pub valid_until : ℕ
  pub producer : String
  pub key : String
  pub digest : String
  pub max_receipts : ℕ
  pub horizon : ℕ

-- The receipt that a caller gets.
pub record Accepted : Type 0 where
  pub first : ℕ
  pub last : ℕ
  pub duplicate : Bool

abbrev pub expired_error : String
expired_error = "producer credential expired before commit"

abbrev pub is_timer_input : {F : Type 0} → Batch F → Bool
is_timer_input batch = not (batch.deadline == 0)

module _ {F : Type 0} (app : App F) (given : WatchRecord F) (batch : Batch F) (input : String)
    (now : ℕ) where
  unfoldable pub expired : PushInput → ℕ → Bool
  expired push at = not (push.valid_until == 0) && leb push.valid_until at

  -- A push of a key that is kept gives its receipt.
  unfoldable pub push_known : PushInput → Db F → Result (Option Accepted)
  push_known push db =
      push_receipt given.lifetime push.producer push.key push.digest now db >>= (λ found.
        elim found [
          | some r ↦ ok (some record { first = r.first; last = r.last; duplicate = true })
          | none ↦ if leb push.max_receipts (push_receipt_count now db) then err quota else ok none
        ])

  unfoldable pub push_gate : Option PushInput → Db F → Result (Option Accepted)
  unfolding expired push_known
  push_gate none db = ok none
  push_gate (some push) db =
      if expired push now
      then err expired_error
      else if not (str_eq db.watch.lifetime given.lifetime) || is_deleted db.watch.status
      then err stale
      else push_known push db

  unfoldable pub fenced : Db F → Bool
  fenced db =
      (db.watch.generation == given.generation)
      && (str_eq db.watch.plan.revision given.plan.revision && is_running db.watch.status)

  -- A timer input takes the timer that it stands for.
  unfoldable pub take_timer : Db F → Result (Db F)
  take_timer db =
      if is_timer_input batch
      then elim (find batch.entity db.timers) [
        | none ↦ err stale
        | some t ↦
            if (t.generation == db.watch.generation) && ((t.due == batch.deadline) && leb t.due now)
            then ok (delete_timer batch.entity t db)
            else err stale
      ]
      else ok db

  unfoldable pub unexpected : Db F → Bool
  unexpected db =
      (elim batch.expected_cursor [ none ↦ false | some c ↦ not (str_eq db.watch.cursor c) ])
      || (not (batch.fresh_until == 0) && leb batch.fresh_until now)

  unfoldable pub checkpointed : Db F → Result (Db F)
  checkpointed db =
      if is_timer_input batch
      then ok db
      else checkpoint db.watch.generation
          (max batch.retry_at
            (app.next_poll now db.watch.plan.every db.watch.plan.evaluator.watch_id))
          now batch.cursor db

  unfoldable pub backpressure : Observation F
  backpressure = record {
    entity = "";
    deadline = none;
    sequence = 0;
    accepted_at = 0;
    fields = end;
    health = gap;
    detail = "backpressure_gap";
  }

  -- The observations, after a gap where the last input had failed.
  unfoldable pub with_gap : Db F → List (Observation F)
  unfolding backpressure
  with_gap db =
      if not (str_eq db.watch.last_error "") && not (is_timer_input batch)
      then backpressure ∷ batch.observations
      else batch.observations

  unfoldable pub input_name : ℕ → String
  input_name i = append input (append ":" (append (app.decimal i) (append ":" (app.decimal now))))

  unfoldable pub stamped : Observation F → Observation F
  stamped o =
      if is_timer_input batch
      then record o {
        accepted_at = now;
        sequence = 0;
        entity = batch.entity;
        deadline = some batch.deadline;
      }
      else record o { accepted_at = now; sequence = 0 }

  unfoldable pub sized : ℕ → ℕ → Observation F → Result (Observation F)
  sized i limit o = elim (app.encoded_size (input_name i) o) [
    | none ↦ err "json"
    | some size ↦ if ltb limit size then err quota else ok o
  ]

  -- The loop that stamps the observations, from the position `i`.
  unfoldable pub stamp_all : ℕ → ℕ → List (Observation F) → Result (List (Observation F))
  unfolding stamped sized
  stamp_all i limit [] = ok []
  stamp_all i limit (o ∷ os) =
      sized i limit (stamped o) >>= (λ o'. stamp_all (suc i) limit os >>= (λ os'. ok (o' ∷ os')))

  -- `AppendObservations`: the observations with their sequences.
  unfoldable pub append_all :
      ℕ → ℕ → List (Observation F) → Db F → Result (List (Observation F) × Db F)
  append_all i generation [] db = ok ([], db)
  append_all i generation (o ∷ os) db = append_observation generation (input_name i) o db >>= (λ r.
      append_all (suc i) generation os r.1 >>= (λ q. ok (record o { sequence = r.0 } ∷ q.0, q.1)))
