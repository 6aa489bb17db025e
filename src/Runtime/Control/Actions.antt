-- ===== src/Runtime/Control/Actions.antt =====
-- The invariant of the entities, through whole lifecycle actions.
use ding.Base.{
  ℕ, ◌≡◌, ◌<◌, refl, String, true, ◌&&◌, not, Option, none, some, if◌then◌else◌, ok, err, arith,
  str_eq, All-mono, if_cases,
}
use ding.Base.Ensures.{Ensures, Ensures-bind, Ensures-if}
use ding.Condition.Model.{State}
use ding.Condition.Routing.{is_empty}
use ding.Condition.Invariant.{Inv}
use ding.Outbox.Manual.{cancel}
use ding.Runtime.Tables.{
  Db, Plan, Phase, running, paused, deleted, is_running, is_deleted, save_timer, append_event,
}
use ding.Runtime.Emission.{App}
use ding.Runtime.Emission.Frame.{Quiet, append_event-Quiet}
use ding.Runtime.Accept.Invariant.{Good}
use ding.Runtime.Control.Resume.{
  save_entity, resume_all, arm_initial, armed_with, armed_at, waiting_state,
}
use ding.Runtime.Control.{
  LifecycleAction, pause, resume, delete, purge, other, LifecycleRequest, Caller, Remains, kept,
  purged, same_phase, target, next_generation, lifecycle_entry, restarted, changed_to, with_cancel,
  move, purge_watch, act, control,
}
use ding.Runtime.Control.Preserved.{
  Sound, Grows, tables-Grows, Quiet-Grows, save_entity-Grows, Grows-trans,
}
use ding.Runtime.Control.Follows.{control-Ensures}
use ding.Runtime.Control.Resumed.{keys_of, empty_length, resume_all-Grows}

module _ {F : Type 0} (app : App F) (now : ℕ) (plan : Plan F)
    (lossless : (s t : State F) → app.stored_state s ≡ some t → t ≡ s)
    (recovers : 0 < plan.evaluator.recover_after) (roomy : 0 < plan.max_entities) where
  abbrev Sane : Db F → Type 0
  Sane d = Sound app now plan lossless d

  abbrev Grown : Db F → Db F → Type 0
  Grown d d' = Grows app now plan lossless d d'

  waiting_state-Good :
      (k : String) (n top : ℕ) → Good plan.evaluator top (waiting_state app now k n)
  unfolding waiting_state
  waiting_state-Good k n top = record {
    inv = record {
      matches_le = omega arith;
      recoveries_lt = recovers;
      recovering_open = λ h. absurd (omega (arith, h));
      one_streak = λ h. omega (arith, h);
      samples_le = omega arith;
      seen_le = omega arith;
      evidence_le = omega arith;
      recovery_evidence = λ h. omega (arith, h);
    };
    behind = omega arith;
  }

  armed_at-Grows :
      (k : String) (n : ℕ) (d : Db F)
      → Sane d
      → is_empty d.entities ≡ true
      → Ensures (Grown d) (armed_at app now k n d)
  unfolding armed_at save_timer
  armed_at-Grows k n d h e =
      Ensures-bind (Grown d) (Grown d) (save_entity app now k (waiting_state app now k n) d) _
        (save_entity-Grows app now plan lossless k (waiting_state app now k n) d h
          (waiting_state-Good k n d.last_sequence)
          (λ q. omega (arith, roomy, empty_length d.entities e)))
        (λ d1 g.
          Grows-trans app now plan lossless d d1 _ g
            (tables-Grows app now plan lossless d1 _ g.sound refl refl (omega arith)))

  arm_initial-Grows :
      (d : Db F) → Sane d → is_empty d.entities ≡ true → Ensures (Grown d) (arm_initial app now d)
  unfolding arm_initial armed_with
  arm_initial-Grows d h e = cases d.watch.plan.evaluator.missing_for
    where
      cases :
          (o : Option ℕ)
          → Ensures (Grown d) (elim o [
            | none ↦ ok d
            | some n ↦
                if is_empty d.watch.plan.evaluator.group_by then armed_with app now n d else ok d
          ])
      cases none = tables-Grows app now plan lossless d d h refl refl (omega arith)
      cases (some n) =
          Ensures-if (Grown d) (is_empty d.watch.plan.evaluator.group_by) (armed_with app now n d)
            (ok d) (λ q. armed_at-Grows _ n d h e)
            (λ q. tables-Grows app now plan lossless d d h refl refl (omega arith))

  module _ (caller : Caller) (request : LifecycleRequest) where
    restarted-Grows : (d : Db F) → Sane d → Ensures (Grown d) (restarted app caller request now d)
    unfolding restarted
    restarted-Grows d h =
        Ensures-if (Grown d) (is_running d.watch.status) _ (ok d)
          (λ p.
            Ensures-if (Grown d) (is_empty d.entities) (arm_initial app now d)
              (resume_all app now d.entities d) (λ q. arm_initial-Grows d h q)
              (λ q.
                resume_all-Grows app now plan lossless d.entities d h
                  (All-mono (λ e. Good plan.evaluator d.last_sequence e.1)
                    (λ e. Inv plan.evaluator e.1) d.entities (λ e g. g.inv) h.valid.good)
                  (keys_of d.entities d.entities (λ k q. q))))
          (λ p. tables-Grows app now plan lossless d d h refl refl (omega arith))

    abbrev pub Left : Remains F → Type 0
    Left (kept d) = Sane d
    Left purged = Unit

    changed_to-Left :
        (status : Phase) (d : Db F)
        → Sane d
        → Ensures Left (changed_to app caller request now status d)
    unfolding changed_to next_generation
    changed_to-Left status d h =
        let m = next_generation app caller request now status d in
        let start = tables-Grows app now plan lossless d m h refl refl (omega arith) in
        Ensures-bind (Grown m) Left (restarted app caller request now m) _
          (restarted-Grows m start.sound)
          (λ d1 g.
            Ensures-bind (Quiet d1) Left
              (append_event (lifecycle_entry app caller request now d1) d1) (λ d2. ok (kept d2))
              (append_event-Quiet app d1.watch (lifecycle_entry app caller request now d1) d1)
              (λ d2 q. (Quiet-Grows app now plan lossless d1 d2 g.sound q).sound))

    with_cancel-Sane : (d : Db F) → Sane d → Sane (with_cancel app caller request now d)
    unfolding with_cancel
    with_cancel-Sane d h =
        let o = record d { outbox = cancel d.outbox d.watch.plan.evaluator.watch_id now } in
        if_cases Sane request.cancel_pending o d
          (λ q. (tables-Grows app now plan lossless d o h refl refl (omega arith)).sound) (λ q. h)

    move-Left :
        (status : Phase) (d : Db F) → Sane d → Ensures Left (move app caller request now status d)
    unfolding move
    move-Left status d h =
        let c = with_cancel app caller request now d in
        Ensures-if Left (is_deleted d.watch.status && not (is_deleted status))
          (err "deleted watches cannot resume; use a new watch ID") _ (λ q. tt)
          (λ q.
            Ensures-if Left (same_phase d.watch.status status) (ok (kept c))
              (changed_to app caller request now status c) (λ p. with_cancel-Sane d h)
              (λ p. changed_to-Left status c (with_cancel-Sane d h)))

    act-Left :
        (a : LifecycleAction) (d : Db F) → Sane d → Ensures Left (act app caller request now a d)
    unfolding act purge_watch target
    act-Left purge d h =
        Ensures-if Left (not (is_deleted d.watch.status))
          (err "only deleted watches can be permanently deleted") _ (λ q. tt)
          (λ q.
            Ensures-if Left (not (str_eq caller.held "")) (err "watch has an active transfer")
              (ok purged) (λ p. tt) (λ p. tt))
    act-Left pause d h = move-Left paused d h
    act-Left resume d h = move-Left running d h
    act-Left delete d h = move-Left deleted d h
    act-Left (other a) d h = tt

    -- An action keeps the invariant of the entities.
    pub control-Left : (d : Db F) → Sane d → Ensures Left (control app caller request now d)
    control-Left d h = control-Ensures app caller request now Left d (act-Left request.action d h)
