-- ===== src/Runtime/Control/Resumed.antt =====
-- The invariant of the entities, through a resume.
use ding.Base.{
  ℕ, suc, ◌≡◌, ◌≤◌, refl, subst, String, true, false, List, [], ◌∷◌, some, ok, err, arith, All,
  All-mono, length, eq_iff,
}
use ding.Base.Ensures.{Ensures, Ensures-bind, Ensures-if, Ensures-then}
use ding.Base.Maps.{has}
use ding.Watch.{Observation}
use ding.Condition.Model.{State}
use ding.Condition.Evaluate.{evaluate}
use ding.Condition.Routing.{is_empty}
use ding.Condition.Invariant.{Inv, evaluate-Inv}
use ding.Runtime.Tables.{Db, Plan, append_observation, with_input}
use ding.Runtime.Emission.{App}
use ding.Runtime.Control.Resume.{
  save_entity, timer_saved, rearmed, emit_all, resume_with, resume_one, resume_all, resumed_gap,
  resume_name,
}
use ding.Runtime.Control.Preserved.{
  Sound, Grows, tables-Grows, save_entity-Grows, timer_saved-Grows, emit_all-Grows, onward,
  rearmed-Good,
}

-- Each entry has its key in the table.
pub keys_of :
    {F : Type 0} (m table : List (String × State F))
    → ((k : String) → has k m ≡ true → has k table ≡ true)
    → All (λ e. has e.0 table ≡ true) m
unfolding has
keys_of [] table h = tt
keys_of ((k, s) ∷ m) table h =
    (h k (ground (arith, (eq_iff k k).1 refl)), keys_of m table (λ j q. h j (ground (arith, q))))

pub empty_length : {A : Type 0} (xs : List A) → is_empty xs ≡ true → length xs ≡ 0
empty_length [] h = refl
empty_length (x ∷ xs) h = cc

module _ {F : Type 0} (app : App F) (now : ℕ) (plan : Plan F)
    (lossless : (s t : State F) → app.stored_state s ≡ some t → t ≡ s) where
  abbrev Sane : Db F → Type 0
  Sane d = Sound app now plan lossless d

  abbrev Grown : Db F → Db F → Type 0
  Grown d d' = Grows app now plan lossless d d'

  resume_with-Grows :
      (o : Observation F) (k : String) (s : State F) (d : Db F)
      → Sane d
      → Inv plan.evaluator s
      → o.sequence ≤ d.last_sequence
      → has k d.entities ≡ true
      → Ensures (Grown d) (resume_with app now o k s d)
  unfolding resume_with
  resume_with-Grows o k s d h inv le old =
      Ensures-then (Grown d) (evaluate app.runtime d.watch.plan.evaluator o now s) _ (λ t e.
        let m = d.watch.plan.evaluator.missing_for in
        let s' = rearmed app now m t.state in
        let d1 = timer_saved app now m k s' d in
        let armed = timer_saved-Grows app now plan lossless m k s' d h in
        let (after, seen) =
          evaluate-Inv app.runtime plan.evaluator o now s t inv
            (subst (λ p. evaluate app.runtime p.evaluator o now s ≡ ok t) h.planned e) in
        let good =
          rearmed-Good app now plan lossless m d1.last_sequence t.state
            (record { inv = after; behind = omega (arith, seen, le, armed.later) }) in
        Ensures-bind (Grown d) (Grown d) (save_entity app now k s' d1)
          (emit_all app now t.events record { prior = s; input = o; recovery = false })
          (onward app now plan lossless d d1 _ armed (
            save_entity-Grows app now plan lossless k s' d1 armed.sound good
              (λ q. ground (arith, q, armed.keys k old))))
          (λ d2 g.
            onward app now plan lossless d d2 _ g
              (emit_all-Grows app now plan lossless t.events _ d2 g.sound)))

  resume_one-Grows :
      (k : String) (s : State F) (d : Db F)
      → Sane d
      → Inv plan.evaluator s
      → has k d.entities ≡ true
      → Ensures (Grown d) (resume_one app now k s d)
  unfolding resume_one append_observation with_input
  resume_one-Grows k s d h inv old =
      Ensures-bind (λ (r : ℕ × Db F). Grown d r.1 × (r.0 ≡ r.1.last_sequence)) (Grown d)
        (append_observation d.watch.generation (resume_name app now k d) (resumed_gap app now 0) d)
        _
        (Ensures-if (λ (r : ℕ × Db F). Grown d r.1 × (r.0 ≡ r.1.last_sequence)) _
          (err "constraint failed")
          (ok (
            suc d.last_sequence,
            with_input d.watch.generation (resume_name app now k d) (resumed_gap app now 0) d,
          ))
          (λ q. tt) (λ q. (tables-Grows app now plan lossless d _ h refl refl (omega arith), refl)))
        (λ (r : ℕ × Db F) g. onward app now plan lossless d r.1 _ g.0 (
          resume_with-Grows (resumed_gap app now r.0) k s r.1 g.0.sound inv (omega (arith, g.1))
            (g.0.keys k old)))

  pub resume_all-Grows :
      (m : List (String × State F)) (d : Db F)
      → Sane d
      → All (λ e. Inv plan.evaluator e.1) m
      → All (λ e. has e.0 d.entities ≡ true) m
      → Ensures (Grown d) (resume_all app now m d)
  unfolding resume_all
  resume_all-Grows [] d h invs olds =
      tables-Grows app now plan lossless d d h refl refl (omega arith)
  resume_all-Grows ((k, s) ∷ m) d h invs olds =
      Ensures-bind (Grown d) (Grown d) (resume_one app now k s d) (resume_all app now m)
        (resume_one-Grows k s d h invs.0 olds.0)
        (λ d1 g. onward app now plan lossless d d1 _ g (
          resume_all-Grows m d1 g.sound invs.1 (
            All-mono (λ e. has e.0 d.entities ≡ true) (λ e. has e.0 d1.entities ≡ true) m
              (λ e q. g.keys e.0 q) olds.1)))
