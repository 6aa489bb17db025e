-- ===== src/Runtime/Accept/Loop.antt =====
-- The rule of its sibling, through the loops of an evaluation.
use ding.Base.{
  ℕ, ◌≡◌, refl, ◌∙◌, ap, subst, String, Bool, ◌&&◌, ◌||◌, List, [], ◌∷◌, Option, none, some,
  if◌then◌else◌, ok, err, All, if_cases,
}
use ding.Base.Ensures.{Ensures, Ensures-bind, Ensures-if, Ensures-then, ensured}
use ding.Base.Maps.{put, remove, has}
use ding.Watch.{Observation, Event, is_healthy, is_unchanged}
use ding.Condition.Model.{State, Transition}
use ding.Condition.Evaluate.{evaluate}
use ding.Condition.Emit.{is_set}
use ding.Condition.Routing.{source_entity}
use ding.Runtime.Tables.{Db, Plan, Timer, Checkpoint, save_timer, delete_entity, save_all}
use ding.Runtime.Cache.{Work, load, admit, saved, delete_loaded, removed, route_cached}
use ding.Runtime.Coherent.{over, load_lem}
use ding.Runtime.Direct.{tables-Stands, saved-Stands, delete_loaded-Stands, Kept-Stands}
use ding.Runtime.Emission.{App, append_evaluated}
use ding.Runtime.Emission.Frame.{Quiet, append_evaluated-Quiet}
use ding.Runtime.Accept.Evaluation.{
  record_event, record_all, recovered, clear_source, armed, store_state, commit, state_of,
  evaluate_key, evaluate_keys, evaluate_one, evaluate_all,
}
use ding.Runtime.Accept.Rule.{Steady, Held, Admitted, route_cached-Held, admit-Admitted}

module _ {F : Type 0} (app : App F) (plan : Plan F) (now : ℕ) (Ok : Observation F → Type 0)
    (Q : List (String × State F) → Db F → Type 0) (steady : Steady app plan now Ok Q) where
  abbrev Holds : Work F → Type 0
  Holds w = Held app plan now Ok Q w

  record_event-Held :
      (e : Event F) (c : Checkpoint F) (w : Work F)
      → Holds w
      → Ensures Holds (record_event app plan now e c w)
  unfolding record_event
  record_event-Held e c (cache, db) h =
      Ensures-then Holds (append_evaluated app db.watch e now c db) (λ d. ok (cache, d))
        (λ d p.
          let quiet =
            ensured (Quiet db) (append_evaluated app db.watch e now c db)
              (append_evaluated-Quiet app db.watch e now c db) p in
          record {
            table = h.table;
            stands = tables-Stands cache db d h.table (ap (λ x. x.entities) quiet) h.stands;
            holds = steady.event db.watch e c h.table db d h.holds quiet p;
          })

  record_all-Held :
      (es : List (Event F)) (c : Checkpoint F) (w : Work F)
      → Holds w
      → Ensures Holds (record_all app plan now es c w)
  unfolding record_all
  record_all-Held [] c w h = h
  record_all-Held (e ∷ es) c w h =
      Ensures-bind Holds Holds (record_event app plan now e c w) (record_all app plan now es c)
        (record_event-Held e c w h) (λ v k. record_all-Held es c v k)

  recovered-Held :
      (o : Observation F) (s : State F) (w : Work F)
      → Holds w
      → Ensures Holds (recovered app plan now o s w)
  unfolding recovered
  recovered-Held o s w h =
      Ensures-if Holds s.source_unhealthy _ (ok w) (λ q. record_event-Held _ _ w h) (λ q. h)

  delete_loaded-Held : (k : String) (w : Work F) → Holds w → Holds (delete_loaded k (load k w).1)
  unfolding delete_loaded removed delete_entity load
  delete_loaded-Held k (c, db) h =
      let (value, kept, known) = load_lem k (c, db) h.stands.coherent in
      let v = load k (c, db) in
      record {
        table = remove k h.table;
        stands =
            delete_loaded-Stands k v.1 h.table
              (Kept-Stands (c, db) v.1 h.table h.stands kept.coherent kept.same) known;
        holds =
            steady.entities (remove k h.table) (remove k db.entities) db
              (steady.delete k h.table db h.holds);
      }

  clear_source-Held :
      (o : Observation F) (w : Work F) → Holds w → Ensures Holds (clear_source app plan now o w)
  unfolding clear_source
  clear_source-Held o w h = cases (load source_entity w).0
    where
      cases :
          (found : Option (State F))
          → Ensures Holds (elim found [
            | none ↦ err "unexpected end of JSON input"
            | some s ↦
                recovered app plan now o s (delete_loaded source_entity (load source_entity w).1)
          ])
      cases none = tt
      cases (some s) =
          recovered-Held o s (delete_loaded source_entity (load source_entity w).1)
            (delete_loaded-Held source_entity w h)

  -- The write of a state, the tables but the entities having changed.
  written_Held :
      (o : Observation F) (k : String) (t : Transition F) (s : State F) (found : Option (State F))
      (w : Work F) (d : Db F) (a : Admitted app plan now Ok Q k (found, w))
      → Ok o
      → evaluate app.runtime plan.evaluator o now (state_of app plan now k found) ≡ ok t
      → app.stored_state t.state ≡ some s
      → d.entities ≡ w.1.entities
      → Q a.table d
      → Holds (saved k s (w.0, d))
  unfolding saved over
  written_Held o k t s found (c, db) d a fine e p same q = record {
    table = put k s a.table;
    stands =
        saved-Stands k s (c, d) a.table (tables-Stands c db d a.table same a.stands) a.known
          (λ n. ap (λ x. has k (save_all c.pending x)) same ∙ a.there n);
    holds =
        steady.write o k t s a.table d fine q
          (subst (λ f. evaluate app.runtime plan.evaluator o now (state_of app plan now k f) ≡ ok t)
            a.value e)
          p a.below;
  }

  armed_Held :
      (o : Observation F) (k : String) (t : Transition F) (s : State F) (found : Option (State F))
      (w : Work F) (a : Admitted app plan now Ok Q k (found, w))
      → Ok o
      → evaluate app.runtime plan.evaluator o now (state_of app plan now k found) ≡ ok t
      → app.stored_state t.state ≡ some s
      → Holds (saved k s (armed app plan now o k t.state w))
  unfolding armed save_timer
  armed_Held o k t s found (c, db) a fine e p =
      let timer : Timer = record { generation = db.watch.generation; due = t.state.missing_at } in
      if_cases (λ (v : Work F). Holds (saved k s v))
        (is_set plan.evaluator.missing_for && (is_healthy o.health || is_unchanged o.health))
        (c, save_timer k timer db) (c, db)
        (λ q.
          written_Held o k t s found (c, db) (save_timer k timer db) a fine e p refl
            (steady.timer k timer a.table db a.holds))
        (λ q. written_Held o k t s found (c, db) db a fine e p refl a.holds)

  store_state_Held :
      (o : Observation F) (k : String) (t : Transition F) (found : Option (State F)) (w : Work F)
      → Admitted app plan now Ok Q k (found, w)
      → Ok o
      → evaluate app.runtime plan.evaluator o now (state_of app plan now k found) ≡ ok t
      → Ensures Holds (store_state app plan now k t.state (armed app plan now o k t.state w))
  unfolding store_state
  store_state_Held o k t found w a fine e =
      cases (app.stored_state t.state) (λ s p. armed_Held o k t s found w a fine e p)
    where
      cases :
          (stored : Option (State F))
          → ((s : State F) → stored ≡ some s → Holds (saved k s (armed app plan now o k t.state w)))
          → Ensures Holds (elim stored [
            | none ↦ err "json"
            | some s ↦ ok (saved k s (armed app plan now o k t.state w))
          ])
      cases none h = tt
      cases (some s) h = h s refl

  commit-Held :
      (o : Observation F) (k : String) (found : Option (State F)) (w : Work F)
      → Admitted app plan now Ok Q k (found, w)
      → Ok o
      → Ensures Holds (commit app plan now o k (state_of app plan now k found) w)
  unfolding commit
  commit-Held o k found w a fine =
      let s = state_of app plan now k found in
      Ensures-then Holds (evaluate app.runtime plan.evaluator o now s) _ (λ t e.
        Ensures-bind Holds Holds
          (store_state app plan now k t.state (armed app plan now o k t.state w)) _
          (store_state_Held o k t found w a fine e) (λ v h. record_all-Held t.events _ v h))

  evaluate_keys-Held :
      (o : Observation F) (ks : List String) (w : Work F)
      → Ok o
      → Holds w
      → Ensures Holds (evaluate_keys app plan now o ks w)
  unfolding evaluate_keys evaluate_key
  evaluate_keys-Held o [] w fine h = h
  evaluate_keys-Held o (k ∷ ks) w fine h =
      Ensures-bind Holds Holds (evaluate_key app plan now o k w) (evaluate_keys app plan now o ks)
        (Ensures-bind (Admitted app plan now Ok Q k) Holds (admit plan.max_entities k w) _
          (admit-Admitted app plan now Ok Q steady k w h)
          (λ (r : Option (State F) × Work F) a. commit-Held o k r.0 r.1 a fine))
        (λ v g. evaluate_keys-Held o ks v fine g)

  evaluate_one-Held :
      (o : Observation F) (w : Work F)
      → Ok o
      → Holds w
      → Ensures Holds (evaluate_one app plan now o w)
  unfolding evaluate_one
  evaluate_one-Held o w fine h =
      Ensures-bind (λ (r : (List String × Bool) × Work F). Holds r.1) Holds
        (route_cached app.runtime plan.evaluator o w) _
        (route_cached-Held app plan now Ok Q steady o w h)
        (λ (r : (List String × Bool) × Work F) g.
          Ensures-bind Holds Holds (if r.0.1 then clear_source app plan now o r.1 else ok r.1)
            (evaluate_keys app plan now o r.0.0)
            (Ensures-if Holds r.0.1 (clear_source app plan now o r.1) (ok r.1)
              (λ q. clear_source-Held o r.1 g) (λ q. g))
            (λ v k. evaluate_keys-Held o r.0.0 v fine k))

  pub evaluate_all-Held :
      (os : List (Observation F)) (w : Work F)
      → All Ok os
      → Holds w
      → Ensures Holds (evaluate_all app plan now os w)
  unfolding evaluate_all
  evaluate_all-Held [] w fine h = h
  evaluate_all-Held (o ∷ os) w fine h =
      Ensures-bind Holds Holds (evaluate_one app plan now o w) (evaluate_all app plan now os)
        (evaluate_one-Held o w fine.0 h) (λ v g. evaluate_all-Held os v fine.1 g)
