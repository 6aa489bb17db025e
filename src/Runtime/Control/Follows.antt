-- ===== src/Runtime/Control/Follows.antt =====
-- What a lifecycle action does to the row of the watch.
use ding.Base.{
  ℕ, ◌≡◌, ◌≤◌, refl, sym, ◌∙◌, ap, subst, Bool, true, false, ◌&&◌, not, inl, inr, ok, err, arith,
  str_eq, Bool-cases, if_cases,
}
use ding.Base.Ensures.{Ensures, Ensures-bind, Ensures-if, Ensures-mono}
use ding.Outbox.Manual.{cancel}
use ding.Runtime.Tables.{Db, WatchRecord, Phase, running, paused, deleted, is_deleted, append_event}
use ding.Runtime.Emission.{App}
use ding.Runtime.Emission.Frame.{Quiet, append_event-Quiet}
use ding.Runtime.Accept.{closing_error}
use ding.Runtime.Control.{
  LifecycleAction, pause, resume, delete, purge, other, LifecycleRequest, Caller, Remains, kept,
  purged, same_phase, target, next_generation, lifecycle_entry, restarted, changed_to, with_cancel,
  move, purge_watch, act, unexpected_generation, is_delete, denied, held_error, control,
}
use ding.Runtime.Control.Watched.{restarted-SameWatch}

apart_status : {b : Bool} → b ≡ true → b ≡ false → ⊥
apart_status p q = cc

same_phase-deleted :
    (a b : Phase) → is_deleted a ≡ true → is_deleted b ≡ true → same_phase a b ≡ true
unfolding same_phase
same_phase-deleted deleted deleted h k = refl
same_phase-deleted deleted running h k = cc
same_phase-deleted deleted paused h k = cc
same_phase-deleted running b h k = cc
same_phase-deleted paused b h k = cc

-- How the row of a watch may go on: a new status comes with a new generation, and a deleted watch
-- stays as it is.
pub record Follows {F : Type 0} (w w' : WatchRecord F) : Type 0 where
  pub later : w.generation ≤ w'.generation
  pub fence : w'.generation ≡ w.generation → w'.status ≡ w.status
  pub final : is_deleted w.status ≡ true → (w'.generation ≡ w.generation) × (w'.status ≡ w.status)
  pub plan : w'.plan ≡ w.plan
  pub lifetime : w'.lifetime ≡ w.lifetime

module _ {F : Type 0} where
  pub Follows-same :
      (w w' : WatchRecord F)
      → w'.generation ≡ w.generation
      → w'.status ≡ w.status
      → w'.plan ≡ w.plan
      → w'.lifetime ≡ w.lifetime
      → Follows w w'
  Follows-same w w' g s p l = record {
    later = omega (arith, g);
    fence = λ e. s;
    final = λ e. (g, s);
    plan = p;
    lifetime = l;
  }

  pub Follows-trans : (a b c : WatchRecord F) → Follows a b → Follows b c → Follows a c
  Follows-trans a b c h k = record {
    later = omega (arith, h.later, k.later);
    fence = λ e.
        let back : b.generation ≡ a.generation = omega (arith, h.later, k.later, e) in
        k.fence (omega (arith, back, e)) ∙ h.fence back;
    final = λ e.
        let first = h.final e in
        let then_ = k.final (ap is_deleted first.1 ∙ e) in (then_.0 ∙ first.0, then_.1 ∙ first.1);
    plan = k.plan ∙ h.plan;
    lifetime = k.lifetime ∙ h.lifetime;
  }

module _ {F : Type 0} (app : App F) (caller : Caller) (request : LifecycleRequest) (now : ℕ) where
  -- What is left of the watch follows it.
  abbrev pub Leaves : Db F → Remains F → Type 0
  Leaves d (kept d') = Follows d.watch d'.watch
  Leaves d purged = is_deleted d.watch.status ≡ true

  same_watch : (d d' : Db F) → d'.watch ≡ d.watch → Leaves d (kept d')
  same_watch d d' e =
      Follows-same d.watch d'.watch (ap (λ w. w.generation) e) (ap (λ w. w.status) e)
        (ap (λ w. w.plan) e) (ap (λ w. w.lifetime) e)

  changed_to-Leaves :
      (status : Phase) (d : Db F)
      → is_deleted d.watch.status ≡ false
      → Ensures (Leaves d) (changed_to app caller request now status d)
  unfolding changed_to next_generation
  changed_to-Leaves status d alive =
      let m = next_generation app caller request now status d in
      Ensures-bind (λ d1. d1.watch ≡ m.watch) (Leaves d) (restarted app caller request now m) _
        (restarted-SameWatch app now caller request m)
        (λ d1 e1.
          Ensures-bind (Quiet d1) (Leaves d)
            (append_event (lifecycle_entry app caller request now d1) d1) (λ d2. ok (kept d2))
            (append_event-Quiet app d1.watch (lifecycle_entry app caller request now d1) d1)
            (λ d2 q. moved_on d2 (ap (λ x. x.watch) q ∙ e1)))
    where
      moved_on :
          (d2 : Db F)
          → d2.watch ≡ (next_generation app caller request now status d).watch
          → Leaves d (kept d2)
      moved_on d2 e = record {
        later = omega (arith, ap (λ w. w.generation) e);
        fence = λ q. absurd (omega (arith, ap (λ w. w.generation) e, q));
        final = λ q. absurd (apart_status q alive);
        plan = ap (λ w. w.plan) e;
        lifetime = ap (λ w. w.lifetime) e;
      }

  with_cancel-watch : (d : Db F) → (with_cancel app caller request now d).watch ≡ d.watch
  unfolding with_cancel
  with_cancel-watch d =
      if_cases (λ (x : Db F). x.watch ≡ d.watch) request.cancel_pending
        (record d { outbox = cancel d.outbox d.watch.plan.evaluator.watch_id now }) d (λ q. refl)
        (λ q. refl)

  Leaves-from : (d d' : Db F) → d'.watch ≡ d.watch → (r : Remains F) → Leaves d' r → Leaves d r
  Leaves-from d d' e (kept x) h = subst (λ w. Follows w x.watch) e h
  Leaves-from d d' e purged h = ap (λ w. is_deleted w.status) (sym e) ∙ h

  -- A deleted watch that is asked to be so is not moved.
  not_deleted :
      (a b : Phase)
      → (is_deleted a && not (is_deleted b)) ≡ false
      → same_phase a b ≡ false
      → is_deleted a ≡ false
  not_deleted a b q p = elim (Bool-cases (is_deleted a)) [
    | inl e ↦ ground (arith, q, p, e, same_phase-deleted a b e)
    | inr e ↦ e
  ]

  move-Leaves :
      (status : Phase) (d : Db F) → Ensures (Leaves d) (move app caller request now status d)
  unfolding move
  move-Leaves status d =
      let c = with_cancel app caller request now d in
      let e = with_cancel-watch d in
      Ensures-if (Leaves d) (is_deleted d.watch.status && not (is_deleted status))
        (err "deleted watches cannot resume; use a new watch ID") _ (λ q. tt)
        (λ q.
          Ensures-if (Leaves d) (same_phase d.watch.status status) (ok (kept c))
            (changed_to app caller request now status c) (λ p. same_watch d c e)
            (λ p.
              Ensures-mono (Leaves c) (Leaves d) _ (λ r h. Leaves-from d c e r h)
                (changed_to-Leaves status c
                  (ap (λ w. is_deleted w.status) e ∙ not_deleted d.watch.status status q p))))

  act-Leaves :
      (a : LifecycleAction) (d : Db F) → Ensures (Leaves d) (act app caller request now a d)
  unfolding act purge_watch target
  act-Leaves purge d =
      Ensures-if (Leaves d) (not (is_deleted d.watch.status))
        (err "only deleted watches can be permanently deleted") _ (λ q. tt)
        (λ q.
          Ensures-if (Leaves d) (not (str_eq caller.held "")) (err "watch has an active transfer")
            (ok purged) (λ p. tt) (λ p. ground (arith, q)))
  act-Leaves pause d = move-Leaves paused d
  act-Leaves resume d = move-Leaves running d
  act-Leaves delete d = move-Leaves deleted d
  act-Leaves (other a) d = tt

  -- The checks of an action refuse it or leave it to `act`.
  pub control-Ensures :
      (P : Remains F → Type 0) (d : Db F)
      → Ensures P (act app caller request now request.action d)
      → Ensures P (control app caller request now d)
  unfolding control
  control-Ensures P d h =
      Ensures-if P (not caller.may_manage) (err denied) _ (λ q. tt)
        (λ q1.
          Ensures-if P app.closing (err closing_error) _ (λ q. tt)
            (λ q2.
              Ensures-if P (not (str_eq caller.held "")) (err (held_error caller.held)) _ (λ q. tt)
                (λ q3.
                  Ensures-if P (not caller.authorized) (err denied) _ (λ q. tt)
                    (λ q4.
                      Ensures-if P
                        (not (str_eq request.expected "")
                          && not (str_eq request.expected d.watch.plan.revision))
                        (err "revision conflict") _ (λ q. tt)
                        (λ q5.
                          Ensures-if P (unexpected_generation app caller request now d)
                            (err "revision conflict") _ (λ q. tt)
                            (λ q6.
                              Ensures-if P
                                (request.cancel_pending && not (is_delete request.action))
                                (err "cancelPending requires delete")
                                (act app caller request now request.action d) (λ q. tt)
                                (λ q7. h)))))))

  -- A lifecycle action that succeeds gives the watch a new status only with a new generation; a
  -- deleted watch keeps its status and generation, and only a deleted watch is purged. Plan and
  -- lifetime stay.
  pub control-Leaves : (d : Db F) → Ensures (Leaves d) (control app caller request now d)
  control-Leaves d = control-Ensures (Leaves d) d (act-Leaves request.action d)
