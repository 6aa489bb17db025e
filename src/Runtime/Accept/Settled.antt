-- ===== src/Runtime/Accept/Settled.antt =====
-- The rule of evaluations, from one database to the next.
use ding.Base.{
  ℕ, ◌≡◌, sym, ◌∙◌, ap, subst, String, List, [], ◌∷◌, Option, length, ok, err, All, ltb,
}
use ding.Base.Ensures.{Ensures, Ensures-bind, Ensures-if, Ensures-then}
use ding.Base.Maps.{find, Unique}
use ding.Watch.{Observation}
use ding.Condition.Model.{State}
use ding.Condition.Routing.{source_entity}
use ding.Runtime.Tables.{Db, WatchRecord, quota}
use ding.Runtime.Cache.{Work, fresh_cache, preload, wanted_keys, loaded, flush}
use ding.Runtime.Steps.{flush_lem, Unique-over}
use ding.Runtime.Refinement.{preloaded-Stands}
use ding.Runtime.Emission.{App}
use ding.Runtime.Accept.{evaluated, within_bytes}
use ding.Runtime.Accept.Input.{Batch, PushInput}
use ding.Runtime.Accept.Evaluation.{evaluate_all}
use ding.Runtime.Accept.Rule.{Steady, Held, flush-holds}
use ding.Runtime.Accept.Loop.{evaluate_all-Held}

module _ {F : Type 0} (app : App F) (given : WatchRecord F) (batch : Batch F) (input : String)
    (push : Option PushInput) (now late : ℕ) (Ok : Observation F → Type 0)
    (Q : List (String × State F) → Db F → Type 0) where
  -- The database holds the entities of a table of which `Q` holds.
  pub record Settled (d : Db F) : Type 0 where
    pub table : List (String × State F)
    pub agree : (k : String) → find k d.entities ≡ find k table
    pub sizes : length d.entities ≡ length table
    pub unique : Unique d.entities
    pub holds : Q table d

  preload-Held :
      (os : List (Observation F)) (d : Db F)
      → Unique d.entities
      → Q d.entities d
      → Ensures
          (Held app given.plan now Ok Q)
          (preload app.runtime given.plan.evaluator os (fresh_cache, d))
  unfolding preload loaded
  preload-Held [] d u q = record { table = d.entities; stands = preloaded-Stands [] d u; holds = q }
  preload-Held (o ∷ []) d u q = record {
    table = d.entities;
    stands = preloaded-Stands [] d u;
    holds = q;
  }
  preload-Held (o ∷ o' ∷ os) d u q =
      Ensures-then (Held app given.plan now Ok Q)
        (wanted_keys app.runtime given.plan.evaluator (o ∷ o' ∷ os)) _
        (λ ks p. record {
          table = d.entities;
          stands = preloaded-Stands (source_entity ∷ ks) d u;
          holds = q;
        })

  module _ (steady : Steady app given.plan now Ok Q) where
    flush-Settled : (w : Work F) → Held app given.plan now Ok Q w → Settled (flush w).1
    flush-Settled w h =
        let e = (flush_lem w).1 in
        record {
          table = h.table;
          agree = λ k. ap (find k) e ∙ h.stands.agree k;
          sizes = ap length e ∙ h.stands.sizes;
          unique = subst Unique (sym e) (Unique-over w h.stands.coherent);
          holds = flush-holds app given.plan now Ok Q steady h.table w h.holds;
        }

    pub evaluated-Settled :
        (os : List (Observation F)) (d : Db F)
        → Unique d.entities
        → Q d.entities d
        → All Ok os
        → Ensures Settled (evaluated app given batch input push now late os d)
    unfolding evaluated within_bytes
    evaluated-Settled os d u q fine =
        Ensures-bind (Held app given.plan now Ok Q) Settled
          (preload app.runtime given.plan.evaluator os (fresh_cache, d)) _ (preload-Held os d u q)
          (λ (w : Work F) h.
            Ensures-bind (Held app given.plan now Ok Q) Settled
              (evaluate_all app given.plan now os w) _
              (evaluate_all-Held app given.plan now Ok Q steady os w fine h)
              (λ (v : Work F) g.
                Ensures-if Settled (ltb app.max_bytes (app.bytes (flush v).1)) (err quota)
                  (ok (flush v).1) (λ p. tt) (λ p. flush-Settled v g)))
