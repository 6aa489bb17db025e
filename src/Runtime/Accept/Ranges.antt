-- ===== src/Runtime/Accept/Ranges.antt =====
-- The sequences that an acceptance reports, and what it leaves when it fails.
use ding.Base.{
  ℕ, suc, ◌≡◌, ◌≢◌, ◌≤◌, ◌<◌, refl, sym, ◌∙◌, ap, subst, String, Bool, true, false, not, ◌&&◌, ◌||◌,
  List, [], ◌∷◌, Option, none, some, ◌⊎◌, inl, inr, Result, ok, err, length, arith, if_cases,
  if◌then◌else◌, str_eq, and_left, ltb, ◌==◌, eq_iff,
}
use ding.Base.Ensures.{Ensures, Ensures-bind, Ensures-then, ensured}
use ding.Base.Maps.{Unique}
use ding.Watch.{Observation}
use ding.Runtime.Tables.{Db, WatchRecord, stale, quota, last_error, with_error}
use ding.Runtime.Emission.{App}
use ding.Runtime.Accept.{
  transaction, concluded, noted, accept, is_none, closing_error, first_of, last_of,
}
use ding.Runtime.Accept.Input.{Batch, PushInput, Accepted, stamp_all, stamped, sized, with_gap}
use ding.Runtime.Accept.Outcome.{Outcome, Fresh, transaction-Outcome}
use ding.Runtime.Accept.Frame.{
  TimersOnly, take_timer-TimersOnly, Checked, checkpointed-Checked, Added, append_all-Added,
  completed-ReceiptsOnly, ReceiptsOnly, first_of-Numbered, last_of-Numbered,
}
use ding.Runtime.Accept.Invariant.{Fixed, evaluated-Fixed}
use ding.Runtime.Accept.Retry.{accept-cases, accept_ok}

module _ {F : Type 0} (app : App F) (given : WatchRecord F) (batch : Batch F) (input : String)
    (push : Option PushInput) (now late : ℕ) where
  length-stamp_all :
      (i limit : ℕ) (os : List (Observation F))
      → Ensures (λ xs. length xs ≡ length os) (stamp_all app given batch input now i limit os)
  unfolding stamp_all
  length-stamp_all i limit [] = refl
  length-stamp_all i limit (o ∷ os) =
      Ensures-then (λ (xs : List (Observation F)). length xs ≡ suc (length os))
        (sized app given batch input now i limit (stamped app given batch input now o)) _
        (λ o' p.
          Ensures-bind (λ (xs : List (Observation F)). length xs ≡ length os)
            (λ (xs : List (Observation F)). length xs ≡ suc (length os))
            (stamp_all app given batch input now (suc i) limit os) (λ xs. ok (o' ∷ xs))
            (length-stamp_all (suc i) limit os) (λ xs e. ap suc e))

  with_gap-nonempty :
      (db : Db F)
      → 0 < length batch.observations
      → 0 < length (with_gap app given batch input now db)
  unfolding with_gap
  with_gap-nonempty db h = ground (arith, h)

  module _ (db : Db F) where
    -- The receipt of new inputs is the range of the sequences that they got.
    Fresh-range :
        (r : Accepted) (d : Db F)
        → Fresh app given batch input push now late db (r, d)
        → Unique db.entities
        → 0 < length batch.observations
        → (r.first ≡ suc db.last_sequence) × (r.last ≡ d.last_sequence) × (r.first ≤ r.last)
    Fresh-range r d f u some_input =
        let s = f.steps in
        let timed =
          ensured (TimersOnly db) _ (take_timer-TimersOnly app given batch input push now late db)
            f.timing in
        let checked =
          ensured (Checked app given batch input push now late f.timed) _
            (checkpointed-Checked app given batch input push now late f.timed) f.checking in
        let added =
          ensured (Added app given batch input push now late (length s.observations) f.checked) _
            (append_all-Added app given batch input push now late 0 f.checked.watch.generation
              s.observations f.checked)
            s.appending in
        let same_entities : s.stored.entities ≡ db.entities =
          ap (λ x. x.entities) added.only
          ∙ ap (λ x. x.entities) checked.only
          ∙ ap (λ x. x.entities) timed in
        let fixed =
          ensured (Fixed s.stored) _
            (evaluated-Fixed app given batch input push now late s.stored s.rows
              (subst Unique (sym same_entities) u))
            s.evaluating in
        let receipts =
          ensured (ReceiptsOnly s.evaluated_db) _
            (completed-ReceiptsOnly app given batch input push now late (first_of s.rows)
              (last_of s.rows) s.evaluated_db)
            s.completing in
        let before : f.checked.last_sequence ≡ db.last_sequence =
          ap (λ x. x.last_sequence) checked.only ∙ ap (λ x. x.last_sequence) timed in
        let many : 0 < length s.rows = omega (
          arith,
          added.count,
          ensured (λ xs. length xs ≡ length (with_gap app given batch input now db)) _
              (length-stamp_all 0 db.watch.plan.max_bytes (with_gap app given batch input now db))
              s.stamping,
          with_gap-nonempty db some_input,
        ) in
        omega (
          arith,
          many,
          before,
          ap (λ x. x.first) s.receipt_of,
          ap (λ x. x.last) s.receipt_of,
          first_of-Numbered f.checked.last_sequence s.rows added.numbered many,
          last_of-Numbered f.checked.last_sequence s.rows added.numbered many,
          added.total,
          fixed.last_sequence,
          ap (λ x. x.last_sequence) receipts,
        )

    -- If acceptPush accepts an input whose receipt is not a duplicate, the range of the
    -- receipt starts right after the last sequence that was given out before, ends at the
    -- last one given out after it, and is not empty. Entities stand once.
    pub accept-range :
        (r : Accepted)
        → (accept app given batch input push now late db).0 ≡ ok r
        → r.duplicate ≡ false
        → Unique db.entities
        → (r.first ≡ suc db.last_sequence)
          × (r.last ≡ (accept app given batch input push now late db).1.last_sequence)
          × (r.first ≤ r.last)
    accept-range r h first_time u =
        let (opened, t) = accept_ok app given batch input push now late db r h in
        elim (ensured (Outcome app given batch input push now late db)
          (transaction app given batch input push now late db)
          (transaction-Outcome app given batch input push now late db) t) [
            | inl known ↦ absurd (twice known.duplicate first_time)
            | inr f ↦
                Fresh-range r (accept app given batch input push now late db).1 f u
                  (counted_nonempty opened.counted)
          ]
      where
        twice : {b : Bool} → b ≡ true → b ≡ false → ⊥
        twice p q = cc

        counted_nonempty :
            ((length batch.observations == 0)
                || ltb given.plan.max_outputs (length batch.observations))
              ≡ false
            → 0 < length batch.observations
        counted_nonempty q = ground (arith, q)

    -- Nothing changed, or only the last error of the watch, after an input that is no push failed
    -- for another reason than a stale generation or the shutdown.
    abbrev pub Failed : String → Db F → Type 0
    Failed e d =
        (d ≡ db)
        ⊎ ((push ≡ none)
            × (e ≢ stale)
            × (e ≢ closing_error)
            × (d
                ≡ with_error (if str_eq e quota then "quota_exceeded" else "acceptance_failed") db))

    noted-Failed : (e : String) → Failed e (noted app given batch input push now late e db)
    unfolding noted last_error
    noted-Failed e =
        if_cases (Failed e) (is_none push && not (str_eq e stale || str_eq e closing_error)) _ db
          (λ q.
            if_cases (Failed e) (db.watch.generation == given.generation)
              (with_error (if str_eq e quota then "quota_exceeded" else "acceptance_failed") db) db
              (λ p. inr (nothing push (and_left _ _ q), not_stale q, not_closing q, refl))
              (λ p. inl refl))
          (λ q. inl refl)
      where
        nothing : (p : Option PushInput) → is_none p ≡ true → p ≡ none
        nothing none h = refl
        nothing (some x) h = cc

        not_stale :
            is_none push && not (str_eq e stale || str_eq e closing_error) ≡ true → e ≢ stale
        not_stale h p = ground (arith, h, (eq_iff e stale).1 p)

        not_closing :
            is_none push && not (str_eq e stale || str_eq e closing_error) ≡ true
            → e ≢ closing_error
        not_closing h p = ground (arith, h, (eq_iff e closing_error).1 p)

    concluded-Failed :
        (m : Result (Accepted × Db F)) (e : String)
        → (concluded app given batch input push now late m db).0 ≡ err e
        → Failed e (concluded app given batch input push now late m db).1
    unfolding concluded
    concluded-Failed (ok r) e h = cc
    concluded-Failed (err f) e h =
        subst (λ x. Failed x (noted app given batch input push now late f db)) (ground (arith, h))
          (noted-Failed f)

    pub accept-rollback :
        (e : String)
        → (accept app given batch input push now late db).0 ≡ err e
        → Failed e (accept app given batch input push now late db).1
    accept-rollback e h = elim (accept-cases app given batch input push now late db) [
      | inl (f, q) ↦ inl (ap (λ v. v.1) q)
      | inr (opened, q) ↦
          subst (λ (v : Result Accepted × Db F). v.0 ≡ err e → Failed e v.1) (sym q)
            (concluded-Failed (transaction app given batch input push now late db) e) h
    ]
