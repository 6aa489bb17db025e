-- ===== src/Runtime/Accept/Rule.antt =====
-- A rule for the evaluation of an input: what its steps keep of the table of entities and of the
-- other tables, it keeps, through the cache.
use ding.Base.{
  ℕ, ◌≡◌, ◌<◌, sym, ◌∙◌, ap, String, Bool, true, not, ◌&&◌, List, [], Option, none, some, str_eq,
  if◌then◌else◌, length, arith, Option-cases, inl, inr, ok, err, leb, if_cases,
}
use ding.Base.Ensures.{Ensures, Ensures-bind, Ensures-if, Ensures-of}
use ding.Base.Maps.{find, put, remove, has}
use ding.Watch.{Observation, Event, is_healthy, is_timer}
use ding.Condition.Model.{State, Transition}
use ding.Condition.Evaluate.{evaluate}
use ding.Condition.Routing.{source_entity, route, is_empty}
use ding.Runtime.Tables.{Db, WatchRecord, Plan, Timer, Checkpoint, quota, save_timer, save_entities}
use ding.Runtime.Cache.{
  Work, is_known, load, load_all, count, admit, admitted, room, flush, existing, source_only,
  every_key, route_cached,
}
use ding.Runtime.Coherent.{over, load_lem}
use ding.Runtime.Steps.{reloaded, load_all_lem, count_lem}
use ding.Runtime.Overlay.{is_some, is_some-find}
use ding.Runtime.Direct.{Stands, Kept-Stands}
use ding.Runtime.Refinement.{count-is_known, count-n}
use ding.Runtime.Emission.{App, append_evaluated}
use ding.Runtime.Emission.Frame.{Quiet}
use ding.Runtime.Accept.Evaluation.{state_of}

module _ {F : Type 0} (app : App F) (plan : Plan F) (now : ℕ) (Ok : Observation F → Type 0)
    (Q : List (String × State F) → Db F → Type 0) where
  -- What the rule asks: each write keeps `Q`, which says nothing of the entities of the tables.
  pub record Steady : Type 0 where
    pub entities :
        (m x : List (String × State F)) (d : Db F) → Q m d → Q m (record d { entities = x })
    pub write :
        (o : Observation F) (k : String) (t : Transition F) (s : State F)
        (m : List (String × State F)) (d : Db F)
        → Ok o
        → Q m d
        → evaluate app.runtime plan.evaluator o now (state_of app plan now k (find k m)) ≡ ok t
        → app.stored_state t.state ≡ some s
        → (find k m ≡ none → length m < plan.max_entities)
        → Q (put k s m) d
    pub delete : (k : String) (m : List (String × State F)) (d : Db F) → Q m d → Q (remove k m) d
    pub timer :
        (k : String) (t : Timer) (m : List (String × State F)) (d : Db F)
        → Q m d
        → Q m (save_timer k t d)
    pub event :
        (w : WatchRecord F) (e : Event F) (c : Checkpoint F) (m : List (String × State F))
        (d d' : Db F)
        → Q m d
        → Quiet d d'
        → append_evaluated app w e now c d ≡ ok d'
        → Q m d'

  -- The cache stands for entities of which `Q` holds.
  pub record Held (w : Work F) : Type 0 where
    pub table : List (String × State F)
    pub stands : Stands w table
    pub holds : Q table w.1

  pub record Admitted (k : String) (r : Option (State F) × Work F) : Type 0 where
    pub table : List (String × State F)
    pub stands : Stands r.1 table
    pub holds : Q table r.1.1
    pub value : r.0 ≡ find k table
    pub known : is_known k r.1.0 ≡ true
    pub there : r.1.0.n ≡ none → has k (over r.1) ≡ true
    pub below : find k table ≡ none → length table < plan.max_entities

  module _ (steady : Steady) where
    pub load-Held : (k : String) (w : Work F) → Held w → Held (load k w).1
    unfolding load
    load-Held k (c, db) h = record {
      table = h.table;
      stands =
          let (value, kept, known) = load_lem k (c, db) h.stands.coherent in
          Kept-Stands (c, db) (load k (c, db)).1 h.table h.stands kept.coherent kept.same;
      holds = h.holds;
    }

    pub flush-holds : (m : List (String × State F)) (w : Work F) → Q m w.1 → Q m (flush w).1
    unfolding flush save_entities
    flush-holds m (c, db) h =
        if_cases (λ (v : Work F). Q m v.1) (is_empty c.pending) (c, db)
          (record c { pending = [] }, save_entities c.pending db) (λ q. h)
          (λ q. steady.entities m (save_entities c.pending db).entities db h)

    load_all-holds : (m : List (String × State F)) (w : Work F) → Q m w.1 → Q m (load_all w).1
    unfolding load_all
    load_all-holds m w h =
        if_cases (λ (v : Work F). Q m v.1) w.0.all w (reloaded (flush w)) (λ q. h)
          (λ q. flush-holds m w h)

    load_all-Held : (w : Work F) → Held w → Held (load_all w)
    load_all-Held w h = record {
      table = h.table;
      stands =
          let (coherent, same, size) = load_all_lem w h.stands.coherent in
          Kept-Stands w (load_all w) h.table h.stands coherent same;
      holds = load_all-holds h.table w h.holds;
    }

    source_only-Held :
        (r : Option (State F) × Work F)
        → Held r.1
        → Held (source_only app.runtime plan.evaluator r).1
    unfolding source_only
    source_only-Held (none, w) h = h
    source_only-Held (some s, w) h = h

    existing-Held :
        (o : Observation F) (w : Work F) → Held w → Held (existing app.runtime plan.evaluator o w).1
    unfolding existing every_key
    existing-Held o w h =
        if_cases (λ (r : List String × Work F). Held r.1) (is_healthy o.health)
          (source_only app.runtime plan.evaluator (load source_entity w))
          (if is_timer o.health && not (str_eq o.entity "")
            then ([], w)
            else every_key app.runtime plan.evaluator (load_all w))
          (λ q. source_only-Held (load source_entity w) (load-Held source_entity w h))
          (λ q.
            if_cases (λ (r : List String × Work F). Held r.1)
              (is_timer o.health && not (str_eq o.entity "")) ([], w)
              (every_key app.runtime plan.evaluator (load_all w)) (λ q. h) (λ q. load_all-Held w h))

    pub route_cached-Held :
        (o : Observation F) (w : Work F)
        → Held w
        → Ensures (λ r. Held r.1) (route_cached app.runtime plan.evaluator o w)
    unfolding route_cached
    route_cached-Held o w h =
        Ensures-bind (λ r. Unit) (λ (r : (List String × Bool) × Work F). Held r.1)
          (route app.runtime plan.evaluator (existing app.runtime plan.evaluator o w).0 o)
          (λ r. ok (r, (existing app.runtime plan.evaluator o w).1))
          (Ensures-of (λ r. Unit) _ (λ r e. tt)) (λ r u. existing-Held o w h)

    -- The state that is admitted, of a key that has one or not.
    found_Admitted :
        (k : String) (s : State F) (w : Work F) (h : Held w)
        → some s ≡ find k h.table
        → is_known k w.0 ≡ true
        → Admitted k (some s, w)
    found_Admitted k s w h e known = record {
      table = h.table;
      stands = h.stands;
      holds = h.holds;
      value = e;
      known = known;
      there = λ q. sym (is_some-find k (over w)) ∙ ap is_some (h.stands.agree k ∙ sym e);
      below = λ q. ground (arith, q, e);
    }

    count-holds : (m : List (String × State F)) (w : Work F) → Q m w.1 → Q m (count w).1.1
    unfolding count
    count-holds m (c, db) h = elim (Option-cases c.n) [
      | inl q ↦ rw (q, count) h
      | inr (n, q) ↦ rw (q, count) h
    ]

    room-Admitted :
        (k : String) (w : Work F) (h : Held w)
        → none ≡ find k h.table
        → is_known k w.0 ≡ true
        → Ensures (Admitted k) (room plan.max_entities (count w))
    unfolding room
    room-Admitted k w h e known =
        let (n, coherent, same) = count_lem w h.stands.coherent in
        Ensures-if (Admitted k) (leb plan.max_entities (count w).0) (err quota)
          (ok (none, (count w).1)) (λ q. tt)
          (λ q. record {
            table = h.table;
            stands = Kept-Stands w (count w).1 h.table h.stands coherent same;
            holds = count-holds h.table w h.holds;
            value = e;
            known = count-is_known k w ∙ known;
            there = λ p. ground (arith, p, count-n w);
            below = λ p. ground (arith, q, n, h.stands.sizes);
          })

    admitted-Admitted :
        (k : String) (o : Option (State F)) (w : Work F) (h : Held w)
        → o ≡ find k h.table
        → is_known k w.0 ≡ true
        → Ensures (Admitted k) (admitted plan.max_entities (o, w))
    unfolding admitted
    admitted-Admitted k none w h e known = room-Admitted k w h e known
    admitted-Admitted k (some s) w h e known = found_Admitted k s w h e known

    pub admit-Admitted :
        (k : String) (w : Work F) → Held w → Ensures (Admitted k) (admit plan.max_entities k w)
    unfolding admit load-Held
    admit-Admitted k w h =
        let (value, kept, known) = load_lem k w h.stands.coherent in
        admitted-Admitted k (load k w).0 (load k w).1 (load-Held k w h) (value ∙ h.stands.agree k)
          known
