-- ===== src/Runtime/Control.antt =====
-- internal/watchrun/lifecycle.go: `Lifecycle`, which pauses, resumes, deletes and purges a watch.
pub mod Resume
pub mod Watched
pub mod Follows
pub mod Preserved
pub mod Resumed
pub mod Actions
use Prim.Native.String.{◌++◌ as append}
use ding.Base.{
  ℕ, suc, ◌+◌, String, Bool, true, false, ◌&&◌, not, List, [], ◌∷◌, Option, none, some, ◌==◌,
  str_eq, if◌then◌else◌, Result, ok, err, ◌>>=◌,
}
use ding.Outbox.Manual.{cancel}
use ding.Runtime.Tables.{
  Db, WatchRecord, Phase, running, paused, deleted, is_running, is_deleted, Entry, lifecycle,
  append_event,
}
use ding.Condition.Routing.{is_empty}
use ding.Runtime.Emission.{App}
use ding.Runtime.Accept.{closing_error}
use ding.Runtime.Control.Resume.{resume_all, arm_initial}

pub data LifecycleAction : Type 0 where
  pause resume delete purge : LifecycleAction
  other : String → LifecycleAction

abbrev pub action_name : LifecycleAction → String
action_name pause = "pause"
action_name resume = "resume"
action_name delete = "delete"
action_name purge = "purge"
action_name (other a) = a

abbrev pub is_delete : LifecycleAction → Bool
is_delete delete = true
is_delete _ = false

-- `LifecycleRequest`.
pub record LifecycleRequest : Type 0 where
  pub expected_generation : Option ℕ
  pub action : LifecycleAction
  pub expected : String
  pub cancel_pending : Bool

-- What the caller's rights and the transfers say, and the digest of a lifecycle event: its watch,
-- revision, kind, generation and time.
pub record Caller : Type 0 where
  pub may_manage : Bool
  pub held : String
  pub authorized : Bool
  pub digest : String → String → String → ℕ → ℕ → String

-- A watch that is purged leaves no rows.
pub data Remains (F : Type 0) : Type 0 where
  kept : Db F → Remains F
  purged : Remains F

unfoldable pub same_phase : Phase → Phase → Bool
same_phase running running = true
same_phase paused paused = true
same_phase deleted deleted = true
same_phase _ _ = false

-- The status that an action asks for.
unfoldable pub target : LifecycleAction → Option Phase
target pause = some paused
target resume = some running
target delete = some deleted
target _ = none

-- `ErrDenied` of internal/access/access.go.
abbrev pub denied : String
denied = "workspace permission denied"

-- The message of `checkHandoffHold` of internal/watchrun/mutation.go.
unfoldable pub held_error : String → String
held_error transfer =
    append "watch is held by transfer "
      (append transfer "; reconcile the transfer before editing or resuming")

module _ {F : Type 0} (app : App F) (caller : Caller) (request : LifecycleRequest) (now : ℕ) where
  -- The row that `SaveWatch` writes: the next generation, due at once.
  unfoldable pub next_generation : Phase → Db F → Db F
  next_generation status db =
      let w = db.watch in
      record db {
        watch = record w {
          status = status;
          generation = suc w.generation;
          next_at = now;
          last_error = "";
        };
        timers = [];
      }

  -- `lifecycleEvent`.
  unfoldable pub lifecycle_entry : Db F → Entry F
  lifecycle_entry db =
      let name = action_name request.action in
      lifecycle
        (caller.digest db.watch.plan.evaluator.watch_id db.watch.plan.revision name
          db.watch.generation now)
        db.watch.plan.revision name now

  -- Remains the row is saved: a running watch resumes its entities, or waits for the first one.
  unfoldable pub restarted : Db F → Result (Db F)
  unfolding resume_all arm_initial
  restarted db =
      if is_running db.watch.status
      then if is_empty db.entities
        then arm_initial app now db
        else resume_all app now db.entities db
      else ok db

  unfoldable pub changed_to : Phase → Db F → Result (Remains F)
  unfolding restarted lifecycle_entry
  changed_to status db = do
    db1 ← restarted (next_generation status db)
    db2 ← append_event (lifecycle_entry db1) db1
    ok (kept db2)

  unfoldable pub with_cancel : Db F → Db F
  with_cancel db =
      if request.cancel_pending
      then record db { outbox = cancel db.outbox db.watch.plan.evaluator.watch_id now }
      else db

  -- The part after the action's status is known.
  unfoldable pub move : Phase → Db F → Result (Remains F)
  unfolding same_phase next_generation changed_to with_cancel
  move status db =
      if is_deleted db.watch.status && not (is_deleted status)
      then err "deleted watches cannot resume; use a new watch ID"
      else if same_phase db.watch.status status
      then ok (kept (with_cancel db))
      else changed_to status (with_cancel db)

  -- `PurgeWatch`.
  unfoldable pub purge_watch : Db F → Result (Remains F)
  purge_watch db =
      if not (is_deleted db.watch.status)
      then err "only deleted watches can be permanently deleted"
      else if not (str_eq caller.held "")
      then err "watch has an active transfer"
      else ok purged

  unfoldable pub act : LifecycleAction → Db F → Result (Remains F)
  unfolding purge_watch move target
  act purge db = purge_watch db
  act a db = elim (target a) [
    | none ↦ err "unknown lifecycle action"
    | some status ↦ move status db
  ]

  unfoldable pub unexpected_generation : Db F → Bool
  unexpected_generation db = elim request.expected_generation [
    | none ↦ false
    | some g ↦ not (g == db.watch.generation)
  ]

  -- `Lifecycle`.
  unfoldable pub control : Db F → Result (Remains F)
  unfolding act unexpected_generation
  control db =
      if not caller.may_manage
      then err denied
      else if app.closing
      then err closing_error
      else if not (str_eq caller.held "")
      then err (held_error caller.held)
      else if not caller.authorized
      then err denied
      else if not (str_eq request.expected "")
          && not (str_eq request.expected db.watch.plan.revision)
      then err "revision conflict"
      else if unexpected_generation db
      then err "revision conflict"
      else if request.cancel_pending && not (is_delete request.action)
      then err "cancelPending requires delete"
      else act request.action db
