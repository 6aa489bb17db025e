-- ===== src/Condition/Routing.antt =====
-- internal/condition/routing.go: the entities that an observation concerns, and the event of a source
-- that is healthy again before any group was observed.
use Prim.Native.String.{compare}
use Prim.Native.Nat.{Ordering}
use ding.Base.{
  String, Bool, true, false, ◌&&◌, ◌||◌, not, List, [], ◌∷◌, Result, ok, ◌>>=◌, str_eq,
  if◌then◌else◌,
}
use ding.Watch.{Observation, is_healthy, is_timer, source_recovered, Event, entity_key, end}
use ding.Condition.Model.{Evaluator, Runtime}
use ding.Condition.Evaluate.{matches_all}

-- `SourceEntity`.
abbrev pub source_entity : String
source_entity = "@source"

-- sort.Strings: the texts by their code points.
unfoldable pub insert_text : String → List String → List String
insert_text k [] = k ∷ []
insert_text k (x ∷ xs) =
    let rest = x ∷ insert_text k xs in elim (compare k x) [ Ordering.gt ↦ rest | _ ↦ k ∷ x ∷ xs ]

unfoldable pub sort_strings : List String → List String
unfolding insert_text
sort_strings [] = []
sort_strings (x ∷ xs) = insert_text x (sort_strings xs)

abbrev pub is_empty {ℓ} : {A : Type ℓ} → List A → Bool
is_empty [] = true
is_empty (x ∷ xs) = false

unfoldable pub listed : String → List String → Bool
listed k [] = false
listed k (x ∷ xs) = str_eq x k || listed k xs

module _ {F : Type 0} (rt : Runtime F) (ev : Evaluator F) where
  -- The key that the fields of an observation give, and the flag that comes with it.
  unfoldable pub keyed : Bool → Observation F → Result (List String × Bool)
  keyed clear o = do key ← entity_key rt.encode_parts ev.group_by o.fields; ok (key ∷ [], clear)

  unfoldable pub unhealthy : List String → Observation F → Result (List String × Bool)
  unfolding keyed sort_strings
  unhealthy existing o =
      if not (is_empty existing)
      then ok (sort_strings existing, false)
      else if not (is_empty ev.group_by)
      then ok (source_entity ∷ [], false)
      else keyed false o

  -- `Route`: the keys and `clearSource`.
  unfoldable pub route : List String → Observation F → Result (List String × Bool)
  unfolding keyed unhealthy listed
  route existing o =
      if is_timer o.health && not (str_eq o.entity "")
      then ok (o.entity ∷ [], false)
      else if not (is_healthy o.health)
      then unhealthy existing o
      else if not (matches_all rt ev.match o.fields)
      then ok ([], false)
      else keyed (listed source_entity existing) o

  -- `SourceRecovered`.
  unfoldable pub source_recovered_event : Observation F → Event F
  source_recovered_event o = record {
    id = rt.identity ev.watch_id ev.revision source_entity source_recovered o.sequence;
    watch_id = ev.watch_id;
    revision = ev.revision;
    entity = source_entity;
    kind = source_recovered;
    at = o.accepted_at;
    message = "source_recovered";
    fields = end;
    evidence = o.sequence ∷ [];
  }
