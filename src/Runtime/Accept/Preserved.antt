-- ===== src/Runtime/Accept/Preserved.antt =====
-- The invariant of the entities and the sequences of the inputs, through a whole transaction.
use Prim.Native.String.{len}
use ding.Base.{
  ℕ, ◌≡◌, ◌≤◌, ◌<◌, refl, sym, ◌∙◌, ap, subst, String, Option, some, inl, inr, Result, ok, err, All,
  All-mono, length, arith, if_cases, str_eq, ltb, ◌==◌, ◌||◌, ◌&&◌, not, if◌then◌else◌,
}
use ding.Base.Ensures.{Ensures, Ensures-mono, ensured}
use ding.Base.Maps.{Unique}
use ding.Condition.Model.{State, Evaluator}
use ding.Runtime.Tables.{Db, WatchRecord, last_error, with_error, stale, quota}
use ding.Runtime.Emission.{App}
use ding.Runtime.Accept.{transaction, noted, concluded, accept, closing_error, is_none}
use ding.Runtime.Accept.Input.{Batch, PushInput, Accepted}
use ding.Runtime.Accept.Outcome.{Outcome, Known, Fresh, Appended, transaction-Outcome}
use ding.Runtime.Accept.Frame.{
  TimersOnly, ReceiptsOnly, take_timer-TimersOnly, checkpointed-Checked, Added, append_all-Added,
  completed-ReceiptsOnly, Numbered-le,
}
use ding.Runtime.Accept.Invariant.{Good, Valid, evaluated-Valid}

module _ {F : Type 0} where
  pub Valid-tables :
      (ev : Evaluator F) (limit : ℕ) (d d' : Db F)
      → d'.entities ≡ d.entities
      → d.last_sequence ≤ d'.last_sequence
      → Valid ev limit d
      → Valid ev limit d'
  Valid-tables ev limit d d' e le h = record {
    unique = subst Unique (sym e) h.unique;
    good = subst (All (λ x. Good ev d'.last_sequence x.1)) (sym e) (
        All-mono (λ x. Good ev d.last_sequence x.1) (λ x. Good ev d'.last_sequence x.1) d.entities
          (λ x g. record { inv = g.inv; behind = omega (arith, g.behind, le) }) h.good);
    bounded = omega (arith, ap length e, h.bounded);
  }

module _ {F : Type 0} (app : App F) (given : WatchRecord F) (batch : Batch F) (input : String)
    (push : Option PushInput) (now late : ℕ)
    (lossless : (s t : State F) → app.stored_state s ≡ some t → t ≡ s)
    (recovers : 0 < given.plan.evaluator.recover_after) where
  abbrev Sound : Db F → Type 0
  Sound d = Valid given.plan.evaluator given.plan.max_entities d

  Appended-Sound :
      (current checked : Db F) (r : Accepted × Db F)
      → Appended app given batch input push now late current checked r
      → Sound checked
      → Sound r.1
  Appended-Sound current checked r s h =
      let added =
        ensured (Added app given batch input push now late (length s.observations) checked) _
          (append_all-Added app given batch input push now late 0 checked.watch.generation
            s.observations checked)
          s.appending in
      let sound =
        Valid-tables given.plan.evaluator given.plan.max_entities checked s.stored
          (ap (λ x. x.entities) added.only) (omega (arith, added.total)) h in
      let fine =
        Numbered-le checked.last_sequence s.stored.last_sequence s.rows added.numbered
          (omega (arith, added.total)) in
      let (after, fixed) =
        ensured _ _
          (evaluated-Valid app given batch input push now late lossless recovers s.stored s.rows
            sound fine)
          s.evaluating in
      let receipts =
        ensured (ReceiptsOnly s.evaluated_db) _
          (completed-ReceiptsOnly app given batch input push now late _ _ s.evaluated_db)
          s.completing in
      Valid-tables given.plan.evaluator given.plan.max_entities s.evaluated_db r.1
        (ap (λ x. x.entities) receipts) (omega (arith, ap (λ x. x.last_sequence) receipts)) after

  Fresh-Sound :
      (db : Db F) (r : Accepted × Db F)
      → Fresh app given batch input push now late db r
      → Sound db
      → Sound r.1
  Fresh-Sound db r f h =
      let timers =
        ensured (TimersOnly db) _ (take_timer-TimersOnly app given batch input push now late db)
          f.timing in
      let checked =
        ensured _ _ (checkpointed-Checked app given batch input push now late f.timed) f.checking in
      Appended-Sound db f.checked r f.steps (
        Valid-tables given.plan.evaluator given.plan.max_entities db f.checked
          (ap (λ x. x.entities) checked.only ∙ ap (λ x. x.entities) timers)
          (omega (arith, ap (λ x. x.last_sequence) checked.only, ap (λ x. x.last_sequence) timers))
          h)

  Known-Sound :
      (db : Db F) (r : Accepted × Db F)
      → Known app given batch input push now late db r
      → Sound db
      → Sound r.1
  Known-Sound db r k h = elim k.timed [
    | inl e ↦ subst Sound (sym e) h
    | inr e ↦
        let timers =
          ensured (TimersOnly db) _ (take_timer-TimersOnly app given batch input push now late db)
            e in
        Valid-tables given.plan.evaluator given.plan.max_entities db r.1
          (ap (λ x. x.entities) timers) (omega (arith, ap (λ x. x.last_sequence) timers)) h
  ]

  Outcome-Sound :
      (db : Db F) (r : Accepted × Db F)
      → Outcome app given batch input push now late db r
      → Sound db
      → Sound r.1
  Outcome-Sound db r (inl k) h = Known-Sound db r k h
  Outcome-Sound db r (inr f) h = Fresh-Sound db r f h

  noted-Sound :
      (e : String) (db : Db F) → Sound db → Sound (noted app given batch input push now late e db)
  unfolding noted last_error with_error
  noted-Sound e db h =
      let detail = if str_eq e quota then "quota_exceeded" else "acceptance_failed" in
      if_cases Sound (is_none push && not (str_eq e stale || str_eq e closing_error)) _ db
        (λ q.
          if_cases Sound (db.watch.generation == given.generation) (with_error detail db) db
            (λ p.
              Valid-tables given.plan.evaluator given.plan.max_entities db (with_error detail db)
                refl (omega arith) h)
            (λ p. h))
        (λ q. h)

  concluded-Sound :
      (m : Result (Accepted × Db F)) (db : Db F)
      → Ensures (λ r. Sound r.1) m
      → Sound db
      → Sound (concluded app given batch input push now late m db).1
  unfolding concluded
  concluded-Sound (ok r) db h k = h
  concluded-Sound (err e) db h k = noted-Sound e db k

  -- Whatever acceptPush returns, it keeps this: each entity stands once in the table, satisfies
  -- the invariant of the evaluator and has seen no input beyond the last sequence given out,
  -- and there are at most maxEntities of them. It is asked that recoverAfter is positive and
  -- that a stored state reads back as it was.
  pub accept-Valid :
      (db : Db F)
      → Valid given.plan.evaluator given.plan.max_entities db
      → Valid given.plan.evaluator given.plan.max_entities
          (accept app given batch input push now late db).1
  unfolding accept
  accept-Valid db h =
      if_cases (λ (v : Result Accepted × Db F). Sound v.1) app.closing (err closing_error, db) _
        (λ q. h)
        (λ q.
          if_cases (λ (v : Result Accepted × Db F). Sound v.1)
            (str_eq input "" || ltb 256 (len input)) (err "invalid input identity", db) _ (λ q. h)
            (λ q.
              if_cases (λ (v : Result Accepted × Db F). Sound v.1)
                ((length batch.observations == 0)
                  || ltb given.plan.max_outputs (length batch.observations))
                (err "invalid observation count", db) _ (λ q. h)
                (λ q.
                  concluded-Sound (transaction app given batch input push now late db) db
                    (Ensures-mono (Outcome app given batch input push now late db)
                      (λ (r : Accepted × Db F). Sound r.1) _ (λ r o. Outcome-Sound db r o h)
                      (transaction-Outcome app given batch input push now late db))
                    h)))
