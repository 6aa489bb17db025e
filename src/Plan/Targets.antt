-- ===== src/Plan/Targets.antt =====
-- internal/plan/compile.go: the part of `Compile` on the destinations of a watch, and
-- `ValidEventType`.
use Prim.Native.String.{compare, ◌++◌ as append}
use Prim.Native.Nat.{Ordering}
use ding.Base.{
  String, Bool, ◌||◌, not, List, [], ◌∷◌, length, ltb, Result, ok, err, ◌>>=◌, if◌then◌else◌,
}
use ding.Condition.Routing.{is_empty, listed, sort_strings}
use ding.Plan.Names.{is_identifier}
use ding.Plan.Durations.{Check}

pub record WatchTarget : Type 0 where
  pub ref : String
  pub events : List String

abbrev pub event_types : List String
event_types =
    "firing" ∷ "recovered" ∷ "changed" ∷ "new-event" ∷ "source_error" ∷ "source_recovered" ∷ "gap"
    ∷ "state_reset" ∷ "paused" ∷ "resumed" ∷ "deleted" ∷ "expired" ∷ []

-- `ValidEventType`.
unfoldable pub is_event_type : String → Bool
unfolding listed
is_event_type s = listed s event_types

abbrev pub default_events : List String
default_events =
    "firing" ∷ "recovered" ∷ "changed" ∷ "new-event" ∷ "source_error" ∷ "source_recovered" ∷ []

unfoldable pub events_of : WatchTarget → List String
events_of t = if is_empty t.events then default_events else t.events

-- sort.Slice by `Ref`.
unfoldable pub insert_target : WatchTarget → List WatchTarget → List WatchTarget
insert_target t [] = t ∷ []
insert_target t (u ∷ us) =
    let rest = u ∷ insert_target t us in
    elim (compare t.ref u.ref) [ Ordering.gt ↦ rest | _ ↦ t ∷ u ∷ us ]

unfoldable pub sort_targets : List WatchTarget → List WatchTarget
unfolding insert_target
sort_targets [] = []
sort_targets (t ∷ ts) = insert_target t (sort_targets ts)

module _ (quote : String → String) where
  -- The loop over the events of a target; `seen` is `eventTypes`.
  unfoldable pub events_checked : List String → List String → Check
  unfolding is_event_type listed
  events_checked seen [] = ok tt
  events_checked seen (e ∷ es) =
      let rest = events_checked (e ∷ seen) es in
      if not (is_event_type e) || listed e seen
      then err (append "unsupported/duplicate event type " (quote e))
      else rest

  -- The loop over the targets.
  unfoldable pub targets_checked : List String → List WatchTarget → Result (List WatchTarget)
  unfolding listed events_of events_checked sort_strings
  targets_checked seen [] = ok []
  targets_checked seen (t ∷ ts) =
      let rest = targets_checked (t.ref ∷ seen) ts in
      if not (is_identifier t.ref) || listed t.ref seen
      then err "invalid/duplicate destination reference"
      else events_checked [] (events_of t)
        >>= (λ events. rest >>= (λ us. ok (record t { events = sort_strings (events_of t) } ∷ us)))

  unfoldable pub compile_targets : List WatchTarget → Result (List WatchTarget)
  unfolding targets_checked sort_targets
  compile_targets ts =
      if ltb 32 (length ts)
      then err "too many destinations"
      else targets_checked [] ts >>= (λ us. ok (sort_targets us))
