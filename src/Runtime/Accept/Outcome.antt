-- ===== src/Runtime/Accept/Outcome.antt =====
-- What a transaction that commits has done: it answered a repeated input, or it took every step.
use ding.Base.{
  ℕ, ◌≡◌, refl, String, true, false, List, Option, none, some, ◌⊎◌, inl, inr, if◌then◌else◌, Each,
  str_eq, ◌||◌, ok, err, not, leb,
}
use ding.Base.Ensures.{Ensures, Ensures-bind, Ensures-if, Ensures-then, Ensures-mono}
use ding.Watch.{Observation}
use ding.Runtime.Tables.{
  Db, WatchRecord, Receipt, PushReceipt, stale, quota, receipt, push_receipt, push_receipt_count,
  is_deleted,
}
use ding.Runtime.Emission.{App}
use ding.Runtime.Accept.{
  closing_error, first_of, last_of, completed, evaluated, over_budget, answer, appended,
  fresh_input, looked_up, current_input, transaction,
}
use ding.Runtime.Accept.Input.{
  Batch, PushInput, Accepted, expired, expired_error, push_known, push_gate, fenced, take_timer,
  unexpected, checkpointed, with_gap, stamp_all, append_all,
}

module _ {F : Type 0} (app : App F) (given : WatchRecord F) (batch : Batch F) (input : String)
    (push : Option PushInput) (now late : ℕ) where
  -- The steps after the checkpoint, from the database `checked`.
  pub record Appended (current checked : Db F) (r : Accepted × Db F) : Type 0 where
    pub observations : List (Observation F)
    pub rows : List (Observation F)
    pub stored : Db F
    pub evaluated_db : Db F
    pub stamping :
        stamp_all app given batch input now 0 current.watch.plan.max_bytes
          (with_gap app given batch input now current)
        ≡ ok observations
    pub appending :
        append_all app given batch input now 0 checked.watch.generation observations checked
        ≡ ok (rows, stored)
    pub evaluating : evaluated app given batch input push now late rows stored ≡ ok evaluated_db
    pub completing :
        completed app given batch input push now late (first_of rows) (last_of rows) evaluated_db
        ≡ ok r.1
    pub receipt_of : r.0 ≡ record { first = first_of rows; last = last_of rows; duplicate = false }

  pub record Fresh (db : Db F) (r : Accepted × Db F) : Type 0 where
    pub timed : Db F
    pub checked : Db F
    pub fencing : fenced app given batch input now db ≡ true
    pub timing : take_timer app given batch input now db ≡ ok timed
    pub unseen : receipt timed.watch.generation input now timed ≡ none
    pub checking : checkpointed app given batch input now timed ≡ ok checked
    pub steps : Appended db checked r

  -- The input was known: at most its timer is gone.
  pub record Known (db : Db F) (r : Accepted × Db F) : Type 0 where
    pub duplicate : r.0.duplicate ≡ true
    pub timed : (r.1 ≡ db) ⊎ (take_timer app given batch input now db ≡ ok r.1)

  abbrev pub Outcome : Db F → Accepted × Db F → Type 0
  Outcome db r = Known db r ⊎ Fresh db r

  appended-Appended :
      (current checked : Db F)
      → Ensures
          (Appended current checked)
          (appended app given batch input push now late current checked)
  unfolding appended answer
  appended-Appended current checked =
      Ensures-if (Appended current checked)
        (over_budget app given batch input push now late checked) (err quota) _ (λ q. tt)
        (λ q.
          Ensures-then (Appended current checked) (stamp_all app given batch input now 0 _ _) _
            (λ os p1.
              Ensures-then (Appended current checked)
                (append_all app given batch input now 0 checked.watch.generation os checked) _
                (λ a p2.
                  Ensures-then (Appended current checked)
                    (evaluated app given batch input push now late a.0 a.1) _
                    (λ d p3.
                      Ensures-then (Appended current checked)
                        (completed app given batch input push now late (first_of a.0) (last_of a.0)
                          d)
                        (λ d'. ok (answer app given batch input push now late a.0 d'))
                        (λ d' p4. record {
                          observations = os;
                          rows = a.0;
                          stored = a.1;
                          evaluated_db = d;
                          stamping = p1;
                          appending = p2;
                          evaluating = p3;
                          completing = p4;
                          receipt_of = refl;
                        })))))

  looked_up-Outcome :
      (db d : Db F)
      → fenced app given batch input now db ≡ true
      → take_timer app given batch input now db ≡ ok d
      → Ensures (Outcome db) (looked_up app given batch input push now late db d)
  unfolding looked_up fresh_input
  looked_up-Outcome db d fence timing = cases (receipt d.watch.generation input now d) refl
    where
      fresh :
          receipt d.watch.generation input now d ≡ none
          → Ensures (Outcome db) (fresh_input app given batch input push now late db d)
      fresh none_seen =
          Ensures-if (Outcome db) (unexpected app given batch input now d) (err stale) _ (λ q. tt)
            (λ q.
              Ensures-then (Outcome db) (checkpointed app given batch input now d)
                (appended app given batch input push now late db)
                (λ c p.
                  Ensures-mono (Appended db c) (Outcome db) _
                    (λ r s. inr record {
                      timed = d;
                      checked = c;
                      fencing = fence;
                      timing = timing;
                      unseen = none_seen;
                      checking = p;
                      steps = s;
                    })
                    (appended-Appended db c)))

      cases :
          (o : Option Receipt)
          → receipt d.watch.generation input now d ≡ o
          → Ensures (Outcome db) (elim o [
            | some r ↦ ok (record { first = r.first; last = r.last; duplicate = true }, d)
            | none ↦ fresh_input app given batch input push now late db d
          ])
      cases none e = fresh e
      cases (some r) e = inl record { duplicate = refl; timed = inr timing }

  current_input-Outcome :
      (db : Db F) → Ensures (Outcome db) (current_input app given batch input push now late db)
  unfolding current_input
  current_input-Outcome db =
      Ensures-if (Outcome db) (fenced app given batch input now db) _ (err stale)
        (λ fence.
          Ensures-then (Outcome db) (take_timer app given batch input now db)
            (looked_up app given batch input push now late db)
            (λ d timing. looked_up-Outcome db d fence timing))
        (λ q. tt)

  -- The receipts of pushes are of duplicates.
  push_known-duplicate :
      (p : PushInput) (db : Db F)
      → Ensures (Each (λ r. r.duplicate ≡ true)) (push_known app given batch input now p db)
  unfolding push_known
  push_known-duplicate p db =
      Ensures-then (Each (λ (r : Accepted). r.duplicate ≡ true))
        (push_receipt given.lifetime p.producer p.key p.digest now db) _ (λ found q. cases found)
    where
      cases :
          (found : Option PushReceipt)
          → Ensures (Each (λ (r : Accepted). r.duplicate ≡ true)) (elim found [
            | some r ↦ ok (some record { first = r.first; last = r.last; duplicate = true })
            | none ↦ if leb p.max_receipts (push_receipt_count now db) then err quota else ok none
          ])
      cases none =
          Ensures-if _ (leb p.max_receipts (push_receipt_count now db)) (err quota) (ok none)
            (λ q. tt) (λ q. tt)
      cases (some r) = refl

  push_gate-duplicate :
      (db : Db F)
      → Ensures (Each (λ r. r.duplicate ≡ true)) (push_gate app given batch input now push db)
  unfolding push_gate
  push_gate-duplicate db = cases push
    where
      cases :
          (p : Option PushInput)
          → Ensures (Each (λ r. r.duplicate ≡ true)) (push_gate app given batch input now p db)
      cases none = tt
      cases (some p) =
          Ensures-if _ (expired app given batch input now p now) (err expired_error) _ (λ q. tt)
            (λ q.
              Ensures-if _
                (not (str_eq db.watch.lifetime given.lifetime) || is_deleted db.watch.status)
                (err stale) (push_known app given batch input now p db) (λ q2. tt)
                (λ q2. push_known-duplicate p db))

  -- The outcomes of the transaction.
  pub transaction-Outcome :
      (db : Db F) → Ensures (Outcome db) (transaction app given batch input push now late db)
  unfolding transaction
  transaction-Outcome db =
      Ensures-if (Outcome db) app.closing (err closing_error) _ (λ q. tt)
        (λ q.
          Ensures-bind (Each (λ r. r.duplicate ≡ true)) (Outcome db)
            (push_gate app given batch input now push db) _ (push_gate-duplicate db) gate)
    where
      gate :
          (known : Option Accepted)
          → Each (λ r. r.duplicate ≡ true) known
          → Ensures (Outcome db) (elim known [
            | some r ↦ ok (r, db)
            | none ↦ current_input app given batch input push now late db
          ])
      gate none h = current_input-Outcome db
      gate (some r) h = inl record { duplicate = h; timed = inl refl }
