-- ===== src/Runtime/History.antt =====
-- Any sequence of acceptances and lifecycle actions on one watch.
use ding.Base.{
  ℕ, ◌≡◌, ◌<◌, refl, sym, ◌∙◌, ap, subst, String, List, [], ◌∷◌, Option, some, inl, inr, Result, ok,
  err, All, length, Result-cases,
}
use ding.Base.Ensures.{ensured}
use ding.Base.Maps.{Unique}
use ding.Condition.Model.{State}
use ding.Runtime.Tables.{Db, WatchRecord, Plan, with_error}
use ding.Runtime.Emission.{App}
use ding.Runtime.Accept.{accept, transaction, first_of, last_of}
use ding.Runtime.Accept.Input.{Batch, PushInput, Accepted}
use ding.Runtime.Accept.Outcome.{Outcome, Known, Fresh, transaction-Outcome}
use ding.Runtime.Accept.Frame.{
  TimersOnly, take_timer-TimersOnly, Checked, checkpointed-Checked, Added, append_all-Added,
  completed-ReceiptsOnly, ReceiptsOnly,
}
use ding.Runtime.Accept.Invariant.{Valid, Fixed, evaluated-Fixed}
use ding.Runtime.Accept.Preserved.{accept-Valid}
use ding.Runtime.Accept.Ranges.{accept-rollback}
use ding.Runtime.Accept.Retry.{accept_ok}
use ding.Runtime.Control.{Caller, LifecycleRequest, Remains, kept, purged, control}
use ding.Runtime.Control.Follows.{Follows, Follows-same, Follows-trans, Leaves, control-Leaves}
use ding.Runtime.Control.Actions.{Left, control-Left}

module _ {F : Type 0} (app : App F) (given : WatchRecord F) (batch : Batch F) (input : String)
    (push : Option PushInput) (now late : ℕ) (db : Db F) (unique : Unique db.entities) where
  Known-Follows :
      (r : Accepted × Db F)
      → Known app given batch input push now late db r
      → Follows db.watch r.1.watch
  Known-Follows r k = elim k.timed [
    | inl e ↦ same (ap (λ x. x.watch) e)
    | inr e ↦ same (
        ap (λ x. x.watch)
          (ensured (TimersOnly db) _ (take_timer-TimersOnly app given batch input push now late db)
            e))
  ]
    where
      same : r.1.watch ≡ db.watch → Follows db.watch r.1.watch
      same e =
          Follows-same db.watch r.1.watch (ap (λ w. w.generation) e) (ap (λ w. w.status) e)
            (ap (λ w. w.plan) e) (ap (λ w. w.lifetime) e)

  Fresh-Follows :
      (r : Accepted × Db F)
      → Fresh app given batch input push now late db r
      → Follows db.watch r.1.watch
  Fresh-Follows r f =
      let s = f.steps in
      let timed =
        ensured (TimersOnly db) _ (take_timer-TimersOnly app given batch input push now late db)
          f.timing in
      let checked =
        ensured (Checked app given batch input push now late f.timed) _
          (checkpointed-Checked app given batch input push now late f.timed) f.checking in
      let added =
        ensured (Added app given batch input push now late (length s.observations) f.checked) _
          (append_all-Added app given batch input push now late 0 f.checked.watch.generation
            s.observations f.checked)
          s.appending in
      let same_entities : s.stored.entities ≡ db.entities =
        ap (λ x. x.entities) added.only
        ∙ ap (λ x. x.entities) checked.only
        ∙ ap (λ x. x.entities) timed in
      let fixed =
        ensured (Fixed s.stored) _
          (evaluated-Fixed app given batch input push now late s.stored s.rows
            (subst Unique (sym same_entities) unique))
          s.evaluating in
      let receipts =
        ensured (ReceiptsOnly s.evaluated_db) _
          (completed-ReceiptsOnly app given batch input push now late (first_of s.rows)
            (last_of s.rows) s.evaluated_db)
          s.completing in
      let w : r.1.watch ≡ f.checked.watch =
        ap (λ x. x.watch) receipts ∙ fixed.watch ∙ ap (λ x. x.watch) added.only in
      Follows-same db.watch r.1.watch
        (ap (λ x. x.generation) w ∙ checked.generation ∙ ap (λ x. x.watch.generation) timed)
        (ap (λ x. x.status) w ∙ checked.status ∙ ap (λ x. x.watch.status) timed)
        (ap (λ x. x.plan) w ∙ checked.plan ∙ ap (λ x. x.watch.plan) timed)
        (ap (λ x. x.lifetime) w ∙ checked.lifetime ∙ ap (λ x. x.watch.lifetime) timed)

  noted-Follows : (detail : String) → Follows db.watch (with_error detail db).watch
  unfolding with_error
  noted-Follows detail = Follows-same db.watch (with_error detail db).watch refl refl refl refl

  -- Failed or not, an acceptance leaves what fences it.
  accept-Follows : Follows db.watch (accept app given batch input push now late db).1.watch
  accept-Follows = elim (Result-cases (accept app given batch input push now late db).0) [
    | inl (r, e) ↦
        elim (ensured (Outcome app given batch input push now late db)
          (transaction app given batch input push now late db)
          (transaction-Outcome app given batch input push now late db)
          (accept_ok app given batch input push now late db r e).1) [
            | inl k ↦ Known-Follows (r, (accept app given batch input push now late db).1) k
            | inr f ↦ Fresh-Follows (r, (accept app given batch input push now late db).1) f
          ]
    | inr (e, p) ↦ elim (accept-rollback app given batch input push now late db e p) [
      | inl q ↦
          subst (λ (d : Db F). Follows db.watch d.watch) (sym q)
            (Follows-same db.watch db.watch refl refl refl refl)
      | inr (a, b, c, q) ↦ subst (λ (d : Db F). Follows db.watch d.watch) (sym q) (noted-Follows _)
    ]
  ]

-- A call on the watch.
pub data Call (F : Type 0) : Type 0 where
  accepting : WatchRecord F → Batch F → String → Option PushInput → ℕ → ℕ → Call F
  controlling : Caller → LifecycleRequest → ℕ → Call F

-- An input comes with a record of the watch that was read before, so with its plan.
abbrev pub Reads : {F : Type 0} → Plan F → Call F → Type 0
Reads plan (accepting given batch input push now late) = given.plan ≡ plan
Reads plan (controlling caller request now) = Unit

-- An action that fails is rolled back.
unfoldable pub committed {ℓ} : {A : Type ℓ} → A → Result A → A
committed a (ok b) = b
committed a (err e) = a

module _ {F : Type 0} (app : App F) where
  unfoldable pub call : Call F → Db F → Remains F
  unfolding committed
  call (accepting given batch input push now late) d =
      kept (accept app given batch input push now late d).1
  call (controlling caller request now) d = committed (kept d) (control app caller request now d)

  unfoldable pub run_calls : List (Call F) → Remains F → Remains F
  unfolding call
  run_calls [] a = a
  run_calls (c ∷ cs) purged = purged
  run_calls (c ∷ cs) (kept d) = run_calls cs (call c d)

-- What a watch has become: gone, or a sound one that follows the one before.
abbrev pub Continues : {F : Type 0} → Plan F → Db F → Remains F → Type 0
Continues plan d (kept d') = Follows d.watch d'.watch × Valid plan.evaluator plan.max_entities d'
Continues plan d purged = Unit

module _ {F : Type 0} (app : App F) (plan : Plan F)
    (lossless : (s t : State F) → app.stored_state s ≡ some t → t ≡ s)
    (recovers : 0 < plan.evaluator.recover_after) (roomy : 0 < plan.max_entities) where
  accept-Continues :
      (given : WatchRecord F) (batch : Batch F) (input : String) (push : Option PushInput)
      (now late : ℕ) (d : Db F)
      → given.plan ≡ plan
      → Valid plan.evaluator plan.max_entities d
      → Continues plan d (kept (accept app given batch input push now late d).1)
  accept-Continues given batch input push now late d e h = (
    accept-Follows app given batch input push now late d h.unique,
    subst (λ p. Valid p.evaluator p.max_entities (accept app given batch input push now late d).1) e
        (accept-Valid app given batch input push now late lossless
          (subst (λ p. 0 < p.evaluator.recover_after) (sym e) recovers) d
          (subst (λ p. Valid p.evaluator p.max_entities d) (sym e) h)),
  )

  control-Continues :
      (caller : Caller) (request : LifecycleRequest) (now : ℕ) (d : Db F)
      → d.watch.plan ≡ plan
      → Valid plan.evaluator plan.max_entities d
      → Continues plan d (committed (kept d) (control app caller request now d))
  unfolding committed
  control-Continues caller request now d e h =
      elim (Result-cases (control app caller request now d)) [
        | inl (a, q) ↦
            subst (λ r. Continues plan d (committed (kept d) r)) (sym q)
              (both a
                (ensured (Leaves app caller request now d) (control app caller request now d)
                  (control-Leaves app caller request now d) q)
                (ensured (Left app now plan lossless recovers roomy caller request)
                  (control app caller request now d)
                  (control-Left app now plan lossless recovers roomy caller request d
                    (record { planned = e; valid = h }))
                  q))
        | inr (f, q) ↦
            subst (λ r. Continues plan d (committed (kept d) r)) (sym q)
              (Follows-same d.watch d.watch refl refl refl refl, h)
      ]
    where
      both :
          (a : Remains F)
          → Leaves app caller request now d a
          → Left app now plan lossless recovers roomy caller request a
          → Continues plan d a
      both (kept d') follows sane = (follows, sane.valid)
      both purged follows sane = tt

  call-Continues :
      (c : Call F) (d : Db F)
      → Reads plan c
      → d.watch.plan ≡ plan
      → Valid plan.evaluator plan.max_entities d
      → Continues plan d (call app c d)
  unfolding call
  call-Continues (accepting given batch input push now late) d r e h =
      accept-Continues given batch input push now late d r h
  call-Continues (controlling caller request now) d r e h =
      control-Continues caller request now d e h

  later_Continues :
      (d d' : Db F) (a : Remains F)
      → Follows d.watch d'.watch
      → Continues plan d' a
      → Continues plan d a
  later_Continues d d' (kept x) f h = (Follows-trans d.watch d'.watch x.watch f h.0, h.1)
  later_Continues d d' purged f h = tt

  gone_Continues :
      (d : Db F) (calls : List (Call F)) → Continues plan d (run_calls app calls purged)
  unfolding run_calls
  gone_Continues d [] = tt
  gone_Continues d (x ∷ xs) = tt

  -- Whatever acceptances and lifecycle actions run on a watch, in any sequence and failed ones
  -- included, if the watch is not purged at the end: its generation has not gone back, the same
  -- generation has the same status, a watch that was deleted has its status and generation, the
  -- plan and the lifetime are the same, and the table of entities keeps its invariant (unique,
  -- each entity sound and behind the last sequence, at most maxEntities). Asked are inputs that
  -- were read with the plan of the watch, positive recoverAfter and maxEntities, and that a
  -- stored state reads back as it was.
  pub run_calls-Continues :
      (calls : List (Call F)) (d : Db F)
      → All (Reads plan) calls
      → d.watch.plan ≡ plan
      → Valid plan.evaluator plan.max_entities d
      → Continues plan d (run_calls app calls (kept d))
  unfolding run_calls call
  run_calls-Continues [] d reads e h = (Follows-same d.watch d.watch refl refl refl refl, h)
  run_calls-Continues (c ∷ calls) d reads e h =
      onward (call app c d) (call-Continues c d reads.0 e h)
        (λ d' f v. run_calls-Continues calls d' reads.1 (f.plan ∙ e) v)
    where
      onward :
          (a : Remains F)
          → Continues plan d a
          → ((d' : Db F)
              → Follows d.watch d'.watch
              → Valid plan.evaluator plan.max_entities d'
              → Continues plan d' (run_calls app calls (kept d')))
          → Continues plan d (run_calls app calls a)
      onward (kept d') k rest =
          later_Continues d d' (run_calls app calls (kept d')) k.0 (rest d' k.0 k.1)
      onward purged k rest = gone_Continues d calls
