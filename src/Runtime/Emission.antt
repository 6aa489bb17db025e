-- ===== src/Runtime/Emission.antt =====
-- internal/watchrun/lifecycle.go and inspection.go: an event is appended, enqueued for each
-- destination that receives its type, and kept with what a replay of it needs.
pub mod Frame
use ding.Base.{
  ℕ, String, Bool, true, false, ◌&&◌, List, [], ◌∷◌, Option, none, some, ltb, leb, str_eq,
  if◌then◌else◌, Result, ok, err, ◌>>=◌, length, keep,
}
use ding.Base.Maps.{find}
use ding.Watch.{
  Value, text, lookup, Observation, Kind, firing, recovered, changed, new_event, source_error,
  source_recovered, sampling_gap, Event,
}
use ding.Condition.Model.{State, Runtime, Operator, new_event as on_new_event}
use ding.Outbox.Rows as outbox
use ding.Outbox.Operations.{Draft, enqueue}
use ding.Runtime.Tables.{
  emitted, Db, WatchRecord, Target, Checkpoint, append_event, save_replay, quota,
}

-- The limits of an App and what it calls: the evaluator's runtime, strconv on naturals, the length
-- of an encoded input, the bytes of the database, the next poll with its jitter, the state that
-- json gives back, the current revision and type of a destination, and the renderer of payloads.
pub record App (F : Type 0) : Type 0 where
  pub max_bytes : ℕ
  pub max_pending : ℕ
  pub closing : Bool
  pub runtime : Runtime F
  pub decimal : ℕ → String
  pub encoded_size : String → Observation F → Option ℕ
  pub bytes : Db F → ℕ
  pub next_poll : ℕ → ℕ → String → ℕ
  pub stored_state : State F → Option (State F)
  pub destination : String → Option (String × String)
  pub render : String → Event F → Option String

-- The text of a type.
abbrev pub kind_name : Kind → String
kind_name firing = "firing"
kind_name recovered = "recovered"
kind_name changed = "changed"
kind_name new_event = "new-event"
kind_name source_error = "source_error"
kind_name source_recovered = "source_recovered"
kind_name sampling_gap = "gap"

-- `contains`.
unfoldable pub contains_text : List String → String → Bool
contains_text [] value = false
contains_text (v ∷ values) value =
    let rest = contains_text values value in if str_eq v value then true else rest

unfoldable pub pending : outbox.Store → ℕ
pending st = length (keep (λ (r : outbox.Row). outbox.is_live r.status) st.rows)

abbrev is_new_event : Operator → Bool
is_new_event on_new_event = true
is_new_event _ = false

module _ {F : Type 0} (app : App F) (w : WatchRecord F) where
  unfoldable pub draft : Event F → String → String → String → ℕ → Draft
  draft e ref revision payload now = record {
    event_id = e.id;
    watch_id = w.plan.evaluator.watch_id;
    destination_id = ref;
    revision = revision;
    payload = payload;
    next_at = now;
    created_at = now;
  }

  unfoldable pub enqueued : Event F → String → ℕ → Db F → String × String → Result (Db F)
  unfolding draft
  enqueued e ref now db (revision, type) = elim (app.render type e) [
    | none ↦ err "render"
    | some payload ↦
        enqueue db.outbox (draft e ref revision payload now)
        >>= (λ r. ok record db { outbox = r.1 })
  ]

  -- The body of the loop over the destinations.
  unfoldable pub notify_one : Event F → Target → ℕ → Db F → Result (Db F)
  unfolding contains_text pending enqueued
  notify_one e target now db =
      if contains_text target.kinds (kind_name e.kind)
      then if leb app.max_pending (pending db.outbox)
        then err quota
        else elim (app.destination target.ref) [
          | none ↦ err "not found"
          | some d ↦ enqueued e target.ref now db d
        ]
      else ok db

  unfoldable pub notify : Event F → List Target → ℕ → Db F → Result (Db F)
  unfolding notify_one
  notify e [] now db = ok db
  notify e (t ∷ ts) now db = notify_one e t now db >>= (λ db'. notify e ts now db')

  -- `appendEvent`.
  unfoldable pub append_and_notify : Event F → ℕ → Db F → Result (Db F)
  unfolding notify
  append_and_notify e now db =
      append_event (emitted e) db >>= (λ db'. notify e w.plan.targets now db')

  identifier : Option (Value F) → String
  identifier (some (text t)) = t
  identifier _ = ""

  own_expiry : String → List (String × ℕ) → List (String × ℕ)
  own_expiry id seen = elim (find id seen) [ none ↦ [] | some expiry ↦ (id, expiry) ∷ [] ]

  -- What the checkpoint of a new-event firing keeps of the identifiers seen.
  unfoldable pub trimmed : Event F → ℕ → Checkpoint F → Checkpoint F
  unfolding identifier own_expiry
  trimmed e now c =
      let ev = w.plan.evaluator in
      let prior = c.prior in
      if is_new_event ev.operator && str_eq (kind_name e.kind) "new-event"
      then if ltb (length (keep (λ (s : String × ℕ). ltb now s.1) prior.seen)) ev.max_samples
        then record c {
          prior = record prior {
            seen = own_expiry (identifier (lookup ev.field c.input.fields)) prior.seen;
          };
        }
        else c
      else c

  -- `appendEvaluated`.
  unfoldable pub append_evaluated : Event F → ℕ → Checkpoint F → Db F → Result (Db F)
  unfolding append_and_notify trimmed
  append_evaluated e now c db =
      append_and_notify e now db >>= (λ db'. save_replay e.id (trimmed e now c) db')
