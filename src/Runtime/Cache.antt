-- ===== src/Runtime/Cache.antt =====
-- internal/watchrun/acceptance_entities.go: the entities that one acceptance has read and written.
-- A state stands for its encoded text.
use ding.Base.{
  ℕ, suc, ◌-◌, String, Bool, true, false, ◌&&◌, ◌||◌, not, List, [], ◌∷◌, ◌++◌, Option, none, some,
  str_eq, if◌then◌else◌, Result, ok, ◌>>=◌, length, leb, err,
}
use ding.Base.Maps.{find, put, remove, has}
use ding.Watch.{Observation, is_healthy, is_timer}
use ding.Condition.Model.{State, Evaluator, Runtime}
use ding.Condition.Routing.{route, source_entity, is_empty, listed}
use ding.Runtime.Tables.{Db, save_entities, delete_entity, quota}

-- `known` lists the keys that the map has as true; `n` is `none` for -1.
pub record Cache (F : Type 0) : Type 0 where
  pub states : List (String × State F)
  pub pending : List (String × State F)
  pub known : List String
  pub all : Bool
  pub n : Option ℕ

-- A cache and the tables it stands before.
abbrev pub Work : Type 0 → Type 0
Work F = Cache F × Db F

unfoldable pub keys {ℓ} : {A : Type ℓ} → List (String × A) → List String
keys [] = []
keys ((k, a) ∷ m) = k ∷ keys m

unfoldable pub step_count : (ℕ → ℕ) → Bool → Option ℕ → Option ℕ
step_count f true (some n) = some (f n)
step_count f true none = none
step_count f false o = o

module _ {F : Type 0} where
  -- `newAcceptanceEntities`.
  abbrev pub fresh_cache : Cache F
  fresh_cache = record { states = []; pending = []; known = []; all = false; n = none }

  -- `flush`.
  unfoldable pub flush : Work F → Work F
  flush (c, db) =
      if is_empty c.pending
      then (c, db)
      else (record c { pending = [] }, save_entities c.pending db)

  unfoldable pub with_row :
      String → Option (State F) → List (String × State F) → List (String × State F)
  with_row k none rows = rows
  with_row k (some s) rows = (k, s) ∷ rows

  -- `EntitySubset`: the rows of the keys.
  unfoldable pub subset : List String → List (String × State F) → List (String × State F)
  unfolding with_row
  subset [] rows = []
  subset (k ∷ ks) rows = with_row k (find k rows) (subset ks rows)

  -- The end of `preload`.
  unfoldable pub loaded : List String → Work F → Work F
  unfolding subset
  loaded wanted (c, db) = (record c { states = subset wanted db.entities; known = wanted }, db)

  unfoldable pub is_known : String → Cache F → Bool
  unfolding listed
  is_known key c = c.all || listed key c.known

  -- The read of `load`, for a key that is not known yet.
  unfoldable pub read : String → Work F → Cache F
  read key (c, db) = elim (find key db.entities) [
    | none ↦ record c { known = key ∷ c.known }
    | some s ↦ record c { known = key ∷ c.known; states = put key s c.states }
  ]

  -- `load`: the state, and the cache after it.
  unfoldable pub load : String → Work F → Option (State F) × Work F
  unfolding is_known read
  load key (c, db) =
      let c' = if is_known key c then c else read key (c, db) in (find key c'.states, (c', db))

  -- The fan-out of `route`.
  unfoldable pub load_all : Work F → Work F
  unfolding flush
  load_all w =
      if w.0.all
      then w
      else let (c, db) = flush w in
        (record c { states = db.entities; all = true; n = some (length db.entities) }, db)

  -- `count`.
  unfoldable pub count : Work F → ℕ × Work F
  count (c, db) = elim c.n [
    | some n ↦ (n, (c, db))
    | none ↦ let n = length db.entities in (n, (record c { n = some n }, db))
  ]

  -- `saved`.
  unfoldable pub saved : String → State F → Work F → Work F
  unfolding step_count
  saved key s (c, db) = (
    record c {
      n = step_count suc (not (has key c.states)) c.n;
      states = put key s c.states;
      known = key ∷ c.known;
      pending = put key s c.pending;
    },
    db,
  )

  -- `removed`.
  unfoldable pub removed : String → Work F → Work F
  unfolding step_count
  removed key (c, db) = (
    record c {
      n = step_count (λ n. n - 1) (has key c.states) c.n;
      states = remove key c.states;
      pending = remove key c.pending;
      known = key ∷ c.known;
    },
    db,
  )

module _ {F : Type 0} (rt : Runtime F) (ev : Evaluator F) where
  -- The loop of `preload`; the observations of other health are loaded when they are evaluated.
  unfoldable pub wanted_keys : List (Observation F) → Result (List String)
  wanted_keys [] = ok []
  wanted_keys (o ∷ os) =
      let rest = wanted_keys os in
      if is_healthy o.health
      then route rt ev [] o >>= (λ r. rest >>= (λ ks. ok (r.0 ++ ks)))
      else rest

  -- `preload`.
  unfoldable pub preload : List (Observation F) → Work F → Result (Work F)
  unfolding wanted_keys loaded
  preload [] w = ok w
  preload (o ∷ []) w = ok w
  preload os w = wanted_keys os >>= (λ ks. ok (loaded (source_entity ∷ ks) w))

  -- The source entity alone, if there is one.
  unfoldable pub source_only : Option (State F) × Work F → List String × Work F
  source_only (none, w) = ([], w)
  source_only (some s, w) = (source_entity ∷ [], w)

  unfoldable pub every_key : Work F → List String × Work F
  unfolding keys
  every_key w = (keys w.0.states, w)

  -- What `route` finds before it asks the evaluator: the keys, and the cache.
  unfoldable pub existing : Observation F → Work F → List String × Work F
  unfolding load load_all source_only every_key
  existing o w =
      if is_healthy o.health
      then source_only (load source_entity w)
      else if is_timer o.health && not (str_eq o.entity "")
      then ([], w)
      else every_key (load_all w)

  -- `route`.
  unfoldable pub route_cached : Observation F → Work F → Result ((List String × Bool) × Work F)
  unfolding existing
  route_cached o w = let (found, w') = existing o w in route rt ev found o >>= (λ r. ok (r, w'))

module _ {F : Type 0} where
  -- A key that has no state needs room under the limit.
  unfoldable pub room : ℕ → ℕ × Work F → Result (Option (State F) × Work F)
  room limit (n, w) = if leb limit n then err quota else ok (none, w)

  unfoldable pub admitted : ℕ → Option (State F) × Work F → Result (Option (State F) × Work F)
  unfolding count room
  admitted limit (some s, w) = ok (some s, w)
  admitted limit (none, w) = room limit (count w)

  -- The state of a key in `acceptPush`.
  unfoldable pub admit : ℕ → String → Work F → Result (Option (State F) × Work F)
  unfolding load admitted
  admit limit key w = admitted limit (load key w)

  -- `DeleteEntity`, and then `removed`.
  unfoldable pub delete_loaded : String → Work F → Work F
  unfolding removed
  delete_loaded key (c, db) = removed key (c, delete_entity key db)
