-- ===== src/Runtime/Control/Watched.antt =====
-- Resuming the entities of a watch leaves its row.
use ding.Base.{
  ℕ, suc, ◌≡◌, refl, ◌∙◌, ap, String, false, List, [], ◌∷◌, Option, none, some, if◌then◌else◌,
  Result, ok, err,
}
use ding.Base.Ensures.{Ensures, Ensures-bind, Ensures-if, Ensures-then, Ensures-mono}
use ding.Base.Maps.{put}
use ding.Watch.{Observation, Event}
use ding.Condition.Model.{State}
use ding.Condition.Evaluate.{evaluate}
use ding.Condition.Routing.{is_empty}
use ding.Runtime.Tables.{Db, is_running, Checkpoint, save_timer, append_observation, with_input}
use ding.Runtime.Emission.{App, append_evaluated}
use ding.Runtime.Emission.Frame.{Quiet, append_evaluated-Quiet}
use ding.Runtime.Control.{LifecycleRequest, Caller, restarted}
use ding.Runtime.Control.Resume.{
  save_entity, timer_saved, rearmed, emit_all, resume_with, resume_one, resume_all, arm_initial,
  armed_with, armed_at, resumed_gap, resume_name,
}

module _ {F : Type 0} (app : App F) (now : ℕ) where
  abbrev pub SameWatch : Db F → Db F → Type 0
  SameWatch d d' = d'.watch ≡ d.watch

  after :
      (a b : Db F) (r : Result (Db F))
      → SameWatch a b
      → Ensures (SameWatch b) r
      → Ensures (SameWatch a) r
  after a b r e h = Ensures-mono (SameWatch b) (SameWatch a) r (λ c p. p ∙ e) h

  save_entity-SameWatch :
      (key : String) (s : State F) (d : Db F) → Ensures (SameWatch d) (save_entity app now key s d)
  unfolding save_entity
  save_entity-SameWatch key s d = cases (app.stored_state s)
    where
      cases :
          (o : Option (State F))
          → Ensures (SameWatch d) (elim o [
            | none ↦ err "json"
            | some t ↦ ok record d { entities = put key t d.entities }
          ])
      cases none = tt
      cases (some t) = refl

  timer_saved-SameWatch :
      (o : Option ℕ) (key : String) (s : State F) (d : Db F)
      → SameWatch d (timer_saved app now o key s d)
  unfolding timer_saved save_timer
  timer_saved-SameWatch none key s d = refl
  timer_saved-SameWatch (some n) key s d = refl

  emit_all-SameWatch :
      (es : List (Event F)) (c : Checkpoint F) (d : Db F)
      → Ensures (SameWatch d) (emit_all app now es c d)
  unfolding emit_all
  emit_all-SameWatch [] c d = refl
  emit_all-SameWatch (e ∷ es) c d =
      Ensures-bind (Quiet d) (SameWatch d) (append_evaluated app d.watch e now c d)
        (emit_all app now es c) (append_evaluated-Quiet app d.watch e now c d)
        (λ d1 q. after d d1 _ (ap (λ x. x.watch) q) (emit_all-SameWatch es c d1))

  resume_with-SameWatch :
      (o : Observation F) (key : String) (s : State F) (d : Db F)
      → Ensures (SameWatch d) (resume_with app now o key s d)
  unfolding resume_with
  resume_with-SameWatch o key s d =
      Ensures-then (SameWatch d) (evaluate app.runtime d.watch.plan.evaluator o now s) _ (λ t p.
        let m = d.watch.plan.evaluator.missing_for in
        let d1 = timer_saved app now m key (rearmed app now m t.state) d in
        Ensures-bind (SameWatch d) (SameWatch d)
          (save_entity app now key (rearmed app now m t.state) d1)
          (emit_all app now t.events record { prior = s; input = o; recovery = false })
          (after d d1 _ (timer_saved-SameWatch m key (rearmed app now m t.state) d)
            (save_entity-SameWatch key (rearmed app now m t.state) d1))
          (λ d2 q. after d d2 _ q (emit_all-SameWatch t.events _ d2)))

  resume_one-SameWatch :
      (key : String) (s : State F) (d : Db F) → Ensures (SameWatch d) (resume_one app now key s d)
  unfolding resume_one append_observation with_input
  resume_one-SameWatch key s d =
      Ensures-bind (λ (r : ℕ × Db F). SameWatch d r.1) (SameWatch d)
        (append_observation d.watch.generation (resume_name app now key d) (resumed_gap app now 0)
          d)
        _
        (Ensures-if (λ (r : ℕ × Db F). SameWatch d r.1) _ (err "constraint failed")
          (ok (
            suc d.last_sequence,
            with_input d.watch.generation (resume_name app now key d) (resumed_gap app now 0) d,
          ))
          (λ q. tt) (λ q. refl))
        (λ (r : ℕ × Db F) q.
          after d r.1 _ q (resume_with-SameWatch (resumed_gap app now r.0) key s r.1))

  resume_all-SameWatch :
      (m : List (String × State F)) (d : Db F) → Ensures (SameWatch d) (resume_all app now m d)
  unfolding resume_all
  resume_all-SameWatch [] d = refl
  resume_all-SameWatch ((key, s) ∷ m) d =
      Ensures-bind (SameWatch d) (SameWatch d) (resume_one app now key s d) (resume_all app now m)
        (resume_one-SameWatch key s d) (λ d1 q. after d d1 _ q (resume_all-SameWatch m d1))

  arm_initial-SameWatch : (d : Db F) → Ensures (SameWatch d) (arm_initial app now d)
  unfolding arm_initial armed_with armed_at save_timer
  arm_initial-SameWatch d = cases d.watch.plan.evaluator.missing_for
    where
      cases :
          (o : Option ℕ)
          → Ensures (SameWatch d) (elim o [
            | none ↦ ok d
            | some n ↦
                if is_empty d.watch.plan.evaluator.group_by then armed_with app now n d else ok d
          ])
      cases none = refl
      cases (some n) =
          Ensures-if (SameWatch d) (is_empty d.watch.plan.evaluator.group_by)
            (armed_with app now n d) (ok d)
            (λ q.
              Ensures-bind (SameWatch d) (SameWatch d) (save_entity app now _ _ d) _
                (save_entity-SameWatch _ _ d) (λ d1 p. p))
            (λ q. refl)

  pub restarted-SameWatch :
      (caller : Caller) (request : LifecycleRequest) (d : Db F)
      → Ensures (SameWatch d) (restarted app caller request now d)
  unfolding restarted
  restarted-SameWatch caller request d =
      Ensures-if (SameWatch d) (is_running d.watch.status) _ (ok d)
        (λ p.
          Ensures-if (SameWatch d) (is_empty d.entities) (arm_initial app now d)
            (resume_all app now d.entities d) (λ q. arm_initial-SameWatch d)
            (λ q. resume_all-SameWatch d.entities d))
        (λ p. refl)
