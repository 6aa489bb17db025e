-- ===== src/Runtime/Superseded.antt =====
-- An input that was read before the watch changed its status.
use ding.Base.{
  ℕ, ◌≡◌, ◌≢◌, ◌<◌, refl, ◌∙◌, ap, subst, String, false, List, none, some, inl, inr, err, arith,
  ◌==◌, All, ==_iff, Bool-cases,
}
use ding.Condition.Model.{State}
use ding.Runtime.Tables.{Db, WatchRecord, Plan, stale}
use ding.Runtime.Emission.{App}
use ding.Runtime.Accept.{accept, transaction, current_input, concluded, noted}
use ding.Runtime.Accept.Input.{Batch, push_gate, fenced}
use ding.Runtime.Accept.Invariant.{Valid}
use ding.Runtime.Accept.Retry.{accept-cases}
use ding.Runtime.Control.{kept}
use ding.Runtime.History.{Call, Reads, run_calls, Continues, run_calls-Continues}

module _ {F : Type 0} (app : App F) (given : WatchRecord F) (batch : Batch F) (input : String)
    (now late : ℕ) where
  -- Refused, with the database as it is.
  abbrev pub Refused : Db F → Type 0
  Refused d = (e : String) × (accept app given batch input none now late d ≡ (err e, d))

  transaction-stale :
      (d : Db F)
      → app.closing ≡ false
      → (d.watch.generation == given.generation) ≡ false
      → transaction app given batch input none now late d ≡ err stale
  unfolding transaction push_gate current_input fenced
  transaction-stale d open_app h = ground (arith, open_app, h)

  concluded-stale :
      (d : Db F) → concluded app given batch input none now late (err stale) d ≡ (err stale, d)
  unfolding concluded noted
  concluded-stale d = refl

  pub accept-Refused : (d : Db F) → (d.watch.generation == given.generation) ≡ false → Refused d
  accept-Refused d h = elim (accept-cases app given batch input none now late d) [
    | inl (e, q) ↦ (e, q)
    | inr (opened, q) ↦ (
      stale,
      q
          ∙ ap (λ m. concluded app given batch input none now late m d)
              (transaction-stale d opened.running h)
          ∙ concluded-stale d,
    )
  ]

  module _ (plan : Plan F) (lossless : (s t : State F) → app.stored_state s ≡ some t → t ≡ s)
      (recovers : 0 < plan.evaluator.recover_after) (roomy : 0 < plan.max_entities) where
    -- After any sequence of acceptances and lifecycle actions that leaves the watch with
    -- another status, an input that no push brings and whose record of the watch was read
    -- before is refused, and the database stays as it is. The conditions are those of
    -- run_calls-Continues.
    pub superseded-Refused :
        (calls : List (Call F)) (d d' : Db F)
        → All (Reads plan) calls
        → d.watch.plan ≡ plan
        → Valid plan.evaluator plan.max_entities d
        → run_calls app calls (kept d) ≡ kept d'
        → d'.watch.status ≢ d.watch.status
        → given.generation ≡ d.watch.generation
        → Refused d'
    superseded-Refused calls d d' reads e h run changed same =
        let went =
          subst (Continues plan d) run
            (run_calls-Continues app plan lossless recovers roomy calls d reads e h) in
        accept-Refused d' (elim (Bool-cases (d'.watch.generation == given.generation)) [
          | inl q ↦
              absurd
                (changed (went.0.fence ((==_iff d'.watch.generation given.generation).0 q ∙ same)))
          | inr q ↦ q
        ])
