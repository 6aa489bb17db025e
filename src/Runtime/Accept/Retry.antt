-- ===== src/Runtime/Accept/Retry.antt =====
-- An input that is sent again: its receipt comes back, and nothing changes.
use Prim.Native.String.{len}
use ding.Base.{
  ℕ, ◌+◌, ◌≡◌, ◌<◌, refl, sym, ◌∙◌, ap, subst, String, Bool, true, false, ◌&&◌, ◌||◌, List, [], ◌∷◌,
  Option, none, some, ◌⊎◌, inl, inr, Result, ok, err, length, arith, if_cases, str_eq, ltb, ◌==◌,
  keep, eq_iff,
}
use ding.Base.Ensures.{ensured}
use ding.Outbox.Rows.{first}
use ding.Runtime.Tables.{Db, WatchRecord, Receipt, receipt, save_receipt, receipt_of, upsert}
use ding.Runtime.Emission.{App}
use ding.Runtime.Accept.Outcome.{Outcome, Fresh, transaction-Outcome}
use ding.Base.Maps.{Unique}
use ding.Runtime.Accept.Frame.{Checked, checkpointed-Checked, Added, append_all-Added}
use ding.Runtime.Accept.Invariant.{Fixed, evaluated-Fixed}
use ding.Runtime.Accept.{
  own_receipt, first_of, last_of, transaction, current_input, looked_up, concluded, accept,
  closing_error, receipt_ttl, completed,
}
use ding.Runtime.Accept.Input.{
  Batch, PushInput, Accepted, push_gate, fenced, take_timer, is_timer_input,
}

-- The row that was put is the one that is found.
first-upsert :
    {A : Type 0} (same p : A → Bool) (a : A) (rows : List A)
    → p a ≡ true
    → ((x : A) → p x ≡ true → same x ≡ true)
    → first p (upsert same a rows) ≡ some a
unfolding first upsert keep
first-upsert same p a [] h sub = ground (arith, h)
first-upsert same p a (x ∷ rows) h sub = ground (arith, first-upsert same p a rows h sub, sub x, h)

module _ {F : Type 0} (app : App F) (given : WatchRecord F) (batch : Batch F) (input : String)
    (push : Option PushInput) (now late : ℕ) (db : Db F) where
  -- What an input passes before the transaction.
  pub record Open : Type 0 where
    pub running : app.closing ≡ false
    pub named : (str_eq input "" || ltb 256 (len input)) ≡ false
    pub counted :
        ((length batch.observations == 0) || ltb given.plan.max_outputs (length batch.observations))
        ≡ false

  abbrev Accepts : Result Accepted × Db F → Type 0
  Accepts v =
      ((e : String) × (v ≡ (err e, db)))
      ⊎ (Open
          × (v
              ≡ concluded app given batch input push now late
                  (transaction app given batch input push now late db) db))

  -- Either a check refused the input, or the transaction decides.
  pub accept-cases : Accepts (accept app given batch input push now late db)
  unfolding accept
  accept-cases =
      if_cases Accepts app.closing (err closing_error, db) _ (λ q. inl (closing_error, refl))
        (λ q1.
          if_cases Accepts (str_eq input "" || ltb 256 (len input))
            (err "invalid input identity", db) _ (λ q. inl ("invalid input identity", refl))
            (λ q2.
              if_cases Accepts
                ((length batch.observations == 0)
                  || ltb given.plan.max_outputs (length batch.observations))
                (err "invalid observation count", db) _
                (λ q. inl ("invalid observation count", refl))
                (λ q3. inr (record { running = q1; named = q2; counted = q3 }, refl))))

  -- An input that is open goes to the transaction.
  pub accept-Open :
      Open
      → accept app given batch input push now late db
        ≡ concluded app given batch input push now late
            (transaction app given batch input push now late db)
            db
  unfolding accept
  accept-Open h = ground (arith, h.running, h.named, h.counted)

  finished_ok :
      (m : Result (Accepted × Db F)) (r : Accepted)
      → (concluded app given batch input push now late m db).0 ≡ ok r
      → m ≡ ok (r, (concluded app given batch input push now late m db).1)
  unfolding concluded
  finished_ok (ok (a, d)) r h = ground (arith, h)
  finished_ok (err e) r h = cc

  -- A receipt came from the transaction, whose database stays.
  pub accept_ok :
      (r : Accepted)
      → (accept app given batch input push now late db).0 ≡ ok r
      → Open
        × (transaction app given batch input push now late db
            ≡ ok (r, (accept app given batch input push now late db).1))
  accept_ok r h = elim accept-cases [
    | inl (e, q) ↦ absurd (refused (ap (λ v. v.0) q))
    | inr (opened, q) ↦ (
      opened,
      subst
          (λ (v : Result Accepted × Db F).
            v.0 ≡ ok r → transaction app given batch input push now late db ≡ ok (r, v.1))
          (sym q) (finished_ok (transaction app given batch input push now late db) r) h,
    )
  ]
    where
      refused : {e : String} → (accept app given batch input push now late db).0 ≡ err e → ⊥
      refused q = cc

module _ {F : Type 0} (app : App F) (given : WatchRecord F) (batch : Batch F) (input : String)
    (now late later latest : ℕ) (db : Db F) where
  -- The database that the first acceptance leaves.
  abbrev After : Db F
  After = (accept app given batch input none now late db).1

  -- What the first acceptance left for a second: the watch is as the fence wants it, and the
  -- receipt is found.
  record Ready (d : Db F) (first last : ℕ) : Type 0 where
    pub fencing : fenced app given batch input later d ≡ true
    pub seen :
        (row : Receipt) × (receipt d.watch.generation input later d ≡ some row)
        × (row.first ≡ first)
        × (row.last ≡ last)

  transaction-Ready :
      (d : Db F) (first last : ℕ)
      → app.closing ≡ false
      → is_timer_input batch ≡ false
      → Ready d first last
      → transaction app given batch input none later latest d
        ≡ ok (record { first = first; last = last; duplicate = true }, d)
  unfolding transaction push_gate current_input take_timer looked_up
  transaction-Ready d first last open_app plain h =
      let (row, e, p, q) = h.seen in ground (arith, open_app, plain, h.fencing, e, p, q)

  -- The row that the first acceptance saves is found until it expires.
  receipt-save :
      (m n : ℕ) (d : Db F)
      → later < now + receipt_ttl d.watch.plan.logs_retention
      → receipt d.watch.generation input later
          (save_receipt (own_receipt app given batch input none now late m n d) d)
        ≡ some (own_receipt app given batch input none now late m n d)
  unfolding receipt save_receipt own_receipt
  receipt-save m n d lt =
      first-upsert (receipt_of d.watch.generation input)
        (λ r. receipt_of d.watch.generation input r && ltb later r.expires) _ d.receipts
        (ground (arith, (eq_iff input input).1 refl, lt)) (λ x h. ground (arith, h))

  -- The fence reads no more of the watch than an acceptance keeps.
  fenced-same :
      (d d' : Db F)
      → d'.watch.generation ≡ d.watch.generation
      → d'.watch.status ≡ d.watch.status
      → d'.watch.plan ≡ d.watch.plan
      → fenced app given batch input now d ≡ true
      → fenced app given batch input later d' ≡ true
  unfolding fenced
  fenced-same d d' g s p h = ground (arith, g, s, ap (λ q. q.revision) p, h)

  timer_taken :
      (d : Db F)
      → is_timer_input batch ≡ false
      → take_timer app given batch input now db ≡ ok d
      → d ≡ db
  unfolding take_timer
  timer_taken d plain h = ground (arith, plain, h)

  Fresh-Ready :
      (r : Accepted) (d : Db F)
      → Fresh app given batch input none now late db (r, d)
      → Unique db.entities
      → is_timer_input batch ≡ false
      → later < now + receipt_ttl db.watch.plan.logs_retention
      → Ready d r.first r.last
  unfolding completed save_receipt own_receipt
  Fresh-Ready r d f u plain lt =
      let s = f.steps in
      let timed : f.timed ≡ db = timer_taken f.timed plain f.timing in
      let checked =
        ensured (Checked app given batch input none now late f.timed) _
          (checkpointed-Checked app given batch input none now late f.timed) f.checking in
      let added =
        ensured (Added app given batch input none now late (length s.observations) f.checked) _
          (append_all-Added app given batch input none now late 0 f.checked.watch.generation
            s.observations f.checked)
          s.appending in
      let same_entities : s.stored.entities ≡ db.entities =
        ap (λ x. x.entities) added.only
        ∙ ap (λ x. x.entities) checked.only
        ∙ ap (λ x. x.entities) timed in
      let fixed =
        ensured (Fixed s.stored) _
          (evaluated-Fixed app given batch input none now late s.stored s.rows
            (subst Unique (sym same_entities) u))
          s.evaluating in
      let watched : s.evaluated_db.watch ≡ f.checked.watch =
        fixed.watch ∙ ap (λ x. x.watch) added.only in
      let e : d
          ≡ save_receipt
              (own_receipt app given batch input none now late (first_of s.rows) (last_of s.rows)
                s.evaluated_db)
              s.evaluated_db =
        ensured
          (λ x.
            x
            ≡ save_receipt
                (own_receipt app given batch input none now late (first_of s.rows) (last_of s.rows)
                  s.evaluated_db)
                s.evaluated_db)
          (completed app given batch input none now late (first_of s.rows) (last_of s.rows)
            s.evaluated_db)
          refl s.completing in
      let plan : s.evaluated_db.watch.plan ≡ db.watch.plan =
        ap (λ w. w.plan) watched ∙ checked.plan ∙ ap (λ x. x.watch.plan) timed in
      record {
        fencing =
            fenced-same db d
              (ap (λ x. x.watch.generation) e
                ∙ ap (λ w. w.generation) watched
                ∙ checked.generation
                ∙ ap (λ x. x.watch.generation) timed)
              (ap (λ x. x.watch.status) e
                ∙ ap (λ w. w.status) watched
                ∙ checked.status
                ∙ ap (λ x. x.watch.status) timed)
              (ap (λ x. x.watch.plan) e ∙ plan) f.fencing;
        seen = (
          own_receipt app given batch input none now late (first_of s.rows) (last_of s.rows)
              s.evaluated_db,
          subst
              (λ x.
                receipt x.watch.generation input later x
                ≡ some (
                    own_receipt app given batch input none now late (first_of s.rows)
                      (last_of s.rows) s.evaluated_db))
              (sym e)
              (receipt-save (first_of s.rows) (last_of s.rows) s.evaluated_db
                (subst (λ p. later < now + receipt_ttl p.logs_retention) (sym plan) lt)),
          sym (ap (λ x. x.first) s.receipt_of),
          sym (ap (λ x. x.last) s.receipt_of),
        );
      }

  -- An input that was accepted, sent again while its receipt is kept, gets the receipt of the
  -- first time marked as a duplicate, and the database stays as the first acceptance left it.
  -- The input is no timer's and no push, the first receipt is not itself a duplicate, and
  -- entities stand once.
  pub accept-retry :
      (r : Accepted)
      → (accept app given batch input none now late db).0 ≡ ok r
      → r.duplicate ≡ false
      → Unique db.entities
      → is_timer_input batch ≡ false
      → later < now + receipt_ttl db.watch.plan.logs_retention
      → accept app given batch input none later latest After
        ≡ (ok record r { duplicate = true }, After)
  unfolding concluded
  accept-retry r h first_time u plain lt =
      let (opened, t) = accept_ok app given batch input none now late db r h in
      elim (ensured (Outcome app given batch input none now late db)
        (transaction app given batch input none now late db)
        (transaction-Outcome app given batch input none now late db) t) [
          | inl known ↦ absurd (twice known.duplicate first_time)
          | inr f ↦
              accept-Open app given batch input none later latest After (record {
                running = opened.running;
                named = opened.named;
                counted = opened.counted;
              })
              ∙ ap (λ m. concluded app given batch input none later latest m After)
                  (transaction-Ready After r.first r.last opened.running plain
                    (Fresh-Ready r After f u plain lt))
        ]
    where
      twice : {b : Bool} → b ≡ true → b ≡ false → ⊥
      twice p q = cc
