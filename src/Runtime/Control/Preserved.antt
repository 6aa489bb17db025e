-- ===== src/Runtime/Control/Preserved.antt =====
-- The invariant of the entities, through a lifecycle action.
use ding.Base.{
  ℕ, ◌≡◌, ◌≤◌, ◌<◌, refl, sym, ◌∙◌, ap, subst, String, true, false, List, [], ◌∷◌, Option, none,
  some, Result, ok, err, arith, Bool-cases, inl, inr, length,
}
use ding.Base.Ensures.{Ensures, Ensures-bind, Ensures-mono}
use ding.Base.Maps.{put, has, has-put, Unique-put, All-put, length-put}
use ding.Watch.{Event}
use ding.Condition.Model.{State}
use ding.Runtime.Tables.{Db, Plan, Checkpoint, save_timer}
use ding.Runtime.Emission.{App, append_evaluated}
use ding.Runtime.Emission.Frame.{Quiet, append_evaluated-Quiet}
use ding.Runtime.Accept.Invariant.{Good, Valid}
use ding.Runtime.Accept.Preserved.{Valid-tables}
use ding.Runtime.Control.Resume.{save_entity, timer_saved, rearmed, emit_all}

module _ {F : Type 0} (app : App F) (now : ℕ) (plan : Plan F)
    (lossless : (s t : State F) → app.stored_state s ≡ some t → t ≡ s) where
  -- The watch has this plan, and the entities are as its evaluator wants them.
  pub record Sound (d : Db F) : Type 0 where
    pub planned : d.watch.plan ≡ plan
    pub valid : Valid plan.evaluator plan.max_entities d

  -- A step keeps the invariant, every key, and the order of the sequences.
  pub record Grows (d d' : Db F) : Type 0 where
    pub sound : Sound d'
    pub keys : (k : String) → has k d.entities ≡ true → has k d'.entities ≡ true
    pub later : d.last_sequence ≤ d'.last_sequence

  pub Grows-trans : (a b c : Db F) → Grows a b → Grows b c → Grows a c
  Grows-trans a b c h k = record {
    sound = k.sound;
    keys = λ i q. k.keys i (h.keys i q);
    later = omega (arith, h.later, k.later);
  }

  -- A step on the other tables.
  pub tables-Grows :
      (d d' : Db F)
      → Sound d
      → d'.watch.plan ≡ d.watch.plan
      → d'.entities ≡ d.entities
      → d.last_sequence ≤ d'.last_sequence
      → Grows d d'
  tables-Grows d d' h p e le = record {
    sound = record {
      planned = p ∙ h.planned;
      valid = Valid-tables plan.evaluator plan.max_entities d d' e le h.valid;
    };
    keys = λ k q. ap (has k) e ∙ q;
    later = le;
  }

  pub Quiet-Grows : (d d' : Db F) → Sound d → Quiet d d' → Grows d d'
  Quiet-Grows d d' h q =
      tables-Grows d d' h (ap (λ x. x.watch.plan) q) (ap (λ x. x.entities) q)
        (omega (arith, ap (λ x. x.last_sequence) q))

  -- A state is saved under a key that has one, or that there is room for.
  put-Grows :
      (k : String) (s : State F) (d : Db F)
      → Sound d
      → Good plan.evaluator d.last_sequence s
      → (has k d.entities ≡ false → length d.entities < plan.max_entities)
      → Grows d (record d { entities = put k s d.entities })
  put-Grows k s d h good below = record {
    sound = record {
      planned = h.planned;
      valid = record {
        unique = Unique-put k s d.entities h.valid.unique;
        good =
            All-put (λ e. Good plan.evaluator d.last_sequence e.1) k s d.entities (λ j q. good)
              h.valid.good;
        bounded = elim (Bool-cases (has k d.entities)) [
          | inl q ↦ ground (arith, q, length-put k s d.entities, h.valid.bounded)
          | inr q ↦ ground (arith, q, length-put k s d.entities, below q)
        ];
      };
    };
    keys = λ j q. ground (arith, has-put k j s d.entities, q);
    later = omega arith;
  }

  pub save_entity-Grows :
      (k : String) (s : State F) (d : Db F)
      → Sound d
      → Good plan.evaluator d.last_sequence s
      → (has k d.entities ≡ false → length d.entities < plan.max_entities)
      → Ensures (Grows d) (save_entity app now k s d)
  unfolding save_entity
  save_entity-Grows k s d h good below = cases (app.stored_state s) refl
    where
      cases :
          (o : Option (State F))
          → app.stored_state s ≡ o
          → Ensures (Grows d) (elim o [
            | none ↦ err "json"
            | some t ↦ ok record d { entities = put k t d.entities }
          ])
      cases none e = tt
      cases (some t) e =
          put-Grows k t d h
            (subst (Good plan.evaluator d.last_sequence) (sym (lossless s t e)) good) below

  pub timer_saved-Grows :
      (o : Option ℕ) (k : String) (s : State F) (d : Db F)
      → Sound d
      → Grows d (timer_saved app now o k s d)
  unfolding timer_saved save_timer
  timer_saved-Grows none k s d h = tables-Grows d d h refl refl (omega arith)
  timer_saved-Grows (some n) k s d h = tables-Grows d _ h refl refl (omega arith)

  pub onward :
      (a b : Db F) (r : Result (Db F)) → Grows a b → Ensures (Grows b) r → Ensures (Grows a) r
  onward a b r g h = Ensures-mono (Grows b) (Grows a) r (λ c k. Grows-trans a b c g k) h

  pub emit_all-Grows :
      (es : List (Event F)) (c : Checkpoint F) (d : Db F)
      → Sound d
      → Ensures (Grows d) (emit_all app now es c d)
  unfolding emit_all
  emit_all-Grows [] c d h = tables-Grows d d h refl refl (omega arith)
  emit_all-Grows (e ∷ es) c d h =
      Ensures-bind (Quiet d) (Grows d) (append_evaluated app d.watch e now c d)
        (emit_all app now es c) (append_evaluated-Quiet app d.watch e now c d)
        (λ d1 q. let g = Quiet-Grows d d1 h q in onward d d1 _ g (emit_all-Grows es c d1 g.sound))

  pub rearmed-Good :
      (o : Option ℕ) (top : ℕ) (s : State F)
      → Good plan.evaluator top s
      → Good plan.evaluator top (rearmed app now o s)
  unfolding rearmed
  rearmed-Good none top s h = h
  rearmed-Good (some n) top s h = record {
    inv = record {
      matches_le = h.inv.matches_le;
      recoveries_lt = h.inv.recoveries_lt;
      recovering_open = h.inv.recovering_open;
      one_streak = h.inv.one_streak;
      samples_le = h.inv.samples_le;
      seen_le = h.inv.seen_le;
      evidence_le = h.inv.evidence_le;
      recovery_evidence = h.inv.recovery_evidence;
    };
    behind = h.behind;
  }
