-- ===== src/Runtime/Control/Resume.antt =====
-- internal/watchrun/lifecycle.go: what a resumed watch does to its entities, and `armInitial`. Go takes
-- the entities in an order of its own; here they come as the table lists them.
use Prim.Native.String.{◌++◌ as append}
use ding.Base.{
  ℕ, ◌+◌, String, false, List, [], ◌∷◌, Option, none, some, if◌then◌else◌, Result, ok, err, ◌>>=◌,
}
use ding.Base.Maps.{put}
use ding.Watch.{end, Observation, gap, Event, entity_key}
use ding.Condition.Model.{State}
use ding.Condition.Evaluate.{evaluate}
use ding.Condition.Routing.{is_empty}
use ding.Runtime.Tables.{Db, Checkpoint, save_timer, append_observation}
use ding.Runtime.Emission.{App, append_evaluated}
use ding.Runtime.Accept.Evaluation.{empty_state}

module _ {F : Type 0} (app : App F) (now : ℕ) where
  unfoldable pub resumed_gap : ℕ → Observation F
  resumed_gap sequence = record {
    entity = "";
    deadline = none;
    sequence = sequence;
    accepted_at = now;
    fields = end;
    health = gap;
    detail = "resumed";
  }

  unfoldable pub resume_name : String → Db F → String
  resume_name key db = append "resume:" (append (app.decimal db.watch.generation) (append ":" key))

  -- `SaveEntity`.
  unfoldable pub save_entity : String → State F → Db F → Result (Db F)
  save_entity key s db = elim (app.stored_state s) [
    | none ↦ err "json"
    | some t ↦ ok record db { entities = put key t db.entities }
  ]

  -- A missing-data condition waits from the time of the resume.
  unfoldable pub rearmed : Option ℕ → State F → State F
  rearmed none s = s
  rearmed (some d) s = record s { missing_at = now + d }

  unfoldable pub timer_saved : Option ℕ → String → State F → Db F → Db F
  timer_saved none key s db = db
  timer_saved (some d) key s db =
      save_timer key record { generation = db.watch.generation; due = s.missing_at } db

  unfoldable pub emit_all : List (Event F) → Checkpoint F → Db F → Result (Db F)
  emit_all [] c db = ok db
  emit_all (e ∷ es) c db = append_evaluated app db.watch e now c db >>= (λ db'. emit_all es c db')

  -- The transition of an entity on the gap `o`, and what is written of it.
  unfoldable pub resume_with : Observation F → String → State F → Db F → Result (Db F)
  unfolding save_entity rearmed timer_saved emit_all
  resume_with o key old db = do
    t ← evaluate app.runtime db.watch.plan.evaluator o now old
    db' ← save_entity key (rearmed db.watch.plan.evaluator.missing_for t.state) (
        timer_saved db.watch.plan.evaluator.missing_for key
          (rearmed db.watch.plan.evaluator.missing_for t.state) db)
    emit_all t.events record { prior = old; input = o; recovery = false } db'

  -- One entity.
  unfoldable pub resume_one : String → State F → Db F → Result (Db F)
  unfolding resumed_gap resume_name resume_with
  resume_one key old db =
      append_observation db.watch.generation (resume_name key db) (resumed_gap 0) db
      >>= (λ r. resume_with (resumed_gap r.0) key old r.1)

  unfoldable pub resume_all : List (String × State F) → Db F → Result (Db F)
  unfolding resume_one
  resume_all [] db = ok db
  resume_all ((key, old) ∷ rest) db = resume_one key old db >>= (λ db'. resume_all rest db')

  unfoldable pub waiting_state : String → ℕ → State F
  waiting_state key d = let s = empty_state key in record s { last_at = now; missing_at = now + d }

  -- The state and the timer of the one entity of a watch that does not group.
  -- The error of `EntityKey` is dropped.
  unfoldable pub own_key : Result String → String
  own_key (ok key) = key
  own_key (err e) = ""

  unfoldable pub armed_at : String → ℕ → Db F → Result (Db F)
  unfolding save_entity waiting_state
  armed_at key d db = save_entity key (waiting_state key d) db >>= (λ db'.
      ok (save_timer key record { generation = db.watch.generation; due = now + d } db'))

  unfoldable pub armed_with : ℕ → Db F → Result (Db F)
  unfolding own_key armed_at
  armed_with d db = armed_at (own_key (entity_key app.runtime.encode_parts [] end)) d db

  -- `armInitial`, for a watch that runs.
  unfoldable pub arm_initial : Db F → Result (Db F)
  unfolding armed_with
  arm_initial db = elim db.watch.plan.evaluator.missing_for [
    | none ↦ ok db
    | some d ↦ if is_empty db.watch.plan.evaluator.group_by then armed_with d db else ok db
  ]
