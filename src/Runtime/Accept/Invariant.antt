-- ===== src/Runtime/Accept/Invariant.antt =====
-- The entities that an acceptance leaves: each satisfies the invariant of the evaluator, none is ahead
-- of the inputs, and they stay within the limit.
use ding.Base.{
  ℕ, ◌≡◌, ◌≤◌, ◌<◌, refl, sym, ◌∙◌, ap, subst, String, false, List, [], ◌∷◌, Option, none, some,
  inl, inr, ok, All, Each, length, if◌then◌else◌, arith, Bool-cases, Option-cases, str_eq, eq_iff,
}
use ding.Base.Ensures.{Ensures, Ensures-mono}
use ding.Base.Maps.{
  find, put, has, has-find, Unique, All-put, All-remove, All-find, length-put, length-remove-le,
}
use ding.Watch.{Observation}
use ding.Condition.Model.{State, Transition, Evaluator}
use ding.Condition.Evaluate.{evaluate}
use ding.Condition.Invariant.{Inv, evaluate-Inv}
use ding.Runtime.Tables.{Db, WatchRecord, save_timer}
use ding.Runtime.Overlay.{is_some-find}
use ding.Runtime.Emission.{App}
use ding.Runtime.Emission.Frame.{Quiet}
use ding.Runtime.Accept.{evaluated}
use ding.Runtime.Accept.Input.{Batch, PushInput}
use ding.Runtime.Accept.Evaluation.{state_of, empty_state}
use ding.Runtime.Accept.Rule.{Steady}
use ding.Runtime.Accept.Settled.{Settled, evaluated-Settled}

module _ {F : Type 0} where
  -- The tables that an evaluation does not write.
  pub record Fixed (d0 d : Db F) : Type 0 where
    pub watch : d.watch ≡ d0.watch
    pub receipts : d.receipts ≡ d0.receipts
    pub pushes : d.pushes ≡ d0.pushes
    pub inputs : d.inputs ≡ d0.inputs
    pub last_sequence : d.last_sequence ≡ d0.last_sequence

  Quiet-Fixed : (d0 d d' : Db F) → Quiet d d' → Fixed d0 d → Fixed d0 d'
  Quiet-Fixed d0 d d' q h = record {
    watch = ap (λ x. x.watch) q ∙ h.watch;
    receipts = ap (λ x. x.receipts) q ∙ h.receipts;
    pushes = ap (λ x. x.pushes) q ∙ h.pushes;
    inputs = ap (λ x. x.inputs) q ∙ h.inputs;
    last_sequence = ap (λ x. x.last_sequence) q ∙ h.last_sequence;
  }

  -- What is found everywhere holds everywhere.
  All-of_find :
      (P : State F → Type 0) (m : List (String × State F))
      → Unique m
      → ((k : String) → Each P (find k m))
      → All (λ e. P e.1) m
  unfolding find
  All-of_find P [] u h = tt
  All-of_find P ((j, s) ∷ m) u h = (
    subst (λ b. Each P (if b then some s else find j m)) ((eq_iff j j).1 refl) (h j),
    All-of_find P m u.1 (λ k. elim (Bool-cases (str_eq j k)) [
      | inl e ↦
          let absent = subst (λ i. has i m ≡ false) ((eq_iff j k).0 e) u.0 in
          subst (Each P) (sym (has-find k m absent)) tt
      | inr e ↦ subst (λ b. Each P (if b then some s else find k m)) e (h k)
    ]),
  )

  -- A state satisfies the invariant, and the last input that it has seen is one of the first `top`.
  pub record Good (ev : Evaluator F) (top : ℕ) (s : State F) : Type 0 where
    pub inv : Inv ev s
    pub behind : s.last_sequence ≤ top

  pub record Valid (ev : Evaluator F) (limit : ℕ) (d : Db F) : Type 0 where
    pub unique : Unique d.entities
    pub good : All (λ e. Good ev d.last_sequence e.1) d.entities
    pub bounded : length d.entities ≤ limit

-- The evaluation of an input leaves the other tables, whatever the states are.
module _ {F : Type 0} (app : App F) (given : WatchRecord F) (batch : Batch F) (input : String)
    (push : Option PushInput) (now late : ℕ) (d0 : Db F) where
  abbrev Framed : List (String × State F) → Db F → Type 0
  Framed m d = Fixed d0 d

  abbrev Anything : Observation F → Type 0
  Anything o = Unit

  Framed-Steady : Steady app given.plan now Anything Framed
  unfolding save_timer
  Framed-Steady = record {
    entities = λ m x d h. same d (record d { entities = x }) h refl refl refl refl refl;
    write = λ o k t s m d fine h e p below. h;
    delete = λ k m d h. h;
    timer = λ k t m d h. same d (save_timer k t d) h refl refl refl refl refl;
    event = λ w e c m d d' h quiet p. Quiet-Fixed d0 d d' quiet h;
  }
    where
      same :
          (d d' : Db F)
          → Fixed d0 d
          → d'.watch ≡ d.watch
          → d'.receipts ≡ d.receipts
          → d'.pushes ≡ d.pushes
          → d'.inputs ≡ d.inputs
          → d'.last_sequence ≡ d.last_sequence
          → Fixed d0 d'
      same d d' h a b c e f = record {
        watch = a ∙ h.watch;
        receipts = b ∙ h.receipts;
        pushes = c ∙ h.pushes;
        inputs = e ∙ h.inputs;
        last_sequence = f ∙ h.last_sequence;
      }

  pub evaluated-Fixed :
      (os : List (Observation F))
      → Unique d0.entities
      → Ensures (Fixed d0) (evaluated app given batch input push now late os d0)
  evaluated-Fixed os u =
      Ensures-mono (Settled app given batch input push now late Anything Framed) (Fixed d0) _
        (λ d g. g.holds)
        (evaluated-Settled app given batch input push now late Anything Framed Framed-Steady os d0 u
          (record {
            watch = refl;
            receipts = refl;
            pushes = refl;
            inputs = refl;
            last_sequence = refl;
          })
          (every os))
    where
      every : (xs : List (Observation F)) → All Anything xs
      every [] = tt
      every (x ∷ xs) = (tt, every xs)

module _ {F : Type 0} (app : App F) (given : WatchRecord F) (batch : Batch F) (input : String)
    (push : Option PushInput) (now late : ℕ)
    (lossless : (s t : State F) → app.stored_state s ≡ some t → t ≡ s)
    (recovers : 0 < given.plan.evaluator.recover_after) where
  empty_state-Inv : (k : String) → Inv given.plan.evaluator (empty_state k)
  empty_state-Inv k = record {
    matches_le = omega arith;
    recoveries_lt = recovers;
    recovering_open = λ h. absurd (omega (arith, h));
    one_streak = λ h. omega (arith, h);
    samples_le = omega arith;
    seen_le = omega arith;
    evidence_le = omega arith;
    recovery_evidence = λ h. omega (arith, h);
  }

  module _ (d0 : Db F) where
    -- What the evaluation keeps.
    abbrev Safe : List (String × State F) → Db F → Type 0
    Safe m d =
        All (λ e. Good given.plan.evaluator d0.last_sequence e.1) m
        × (length m ≤ given.plan.max_entities)
        × Fixed d0 d

    found_Inv :
        (k : String) (o : Option (State F))
        → Each (Good given.plan.evaluator d0.last_sequence) o
        → Inv given.plan.evaluator (state_of app given.plan now k o)
    unfolding state_of
    found_Inv k none h = empty_state-Inv k
    found_Inv k (some s) h = h.inv

    written_length :
        (k : String) (s : State F) (m : List (String × State F))
        → length m ≤ given.plan.max_entities
        → (find k m ≡ none → length m < given.plan.max_entities)
        → length (put k s m) ≤ given.plan.max_entities
    written_length k s m le below = elim (Option-cases (find k m)) [
      | inl q ↦ ground (arith, length-put k s m, is_some-find k m, q, below q)
      | inr (t, q) ↦ ground (arith, length-put k s m, is_some-find k m, q, le)
    ]

    written_Good :
        (o : Observation F) (k : String) (t : Transition F) (s : State F)
        (m : List (String × State F))
        → o.sequence ≤ d0.last_sequence
        → All (λ e. Good given.plan.evaluator d0.last_sequence e.1) m
        → evaluate app.runtime given.plan.evaluator o now (state_of app given.plan now k (find k m))
          ≡ ok t
        → app.stored_state t.state ≡ some s
        → Good given.plan.evaluator d0.last_sequence s
    written_Good o k t s m fine good e p =
        let ev = given.plan.evaluator in
        let before = found_Inv k (find k m) (All-find (Good ev d0.last_sequence) k m good) in
        let (inv, seen) =
          evaluate-Inv app.runtime ev o now (state_of app given.plan now k (find k m)) t before e in
        subst (Good ev d0.last_sequence) (sym (lossless t.state s p))
          record { inv = inv; behind = omega (arith, seen, fine) }

    Safe-Steady : Steady app given.plan now (λ o. o.sequence ≤ d0.last_sequence) Safe
    unfolding save_timer
    Safe-Steady = record {
      entities = λ m x d h. (
        h.0,
        h.1,
        record {
          watch = h.2.watch;
          receipts = h.2.receipts;
          pushes = h.2.pushes;
          inputs = h.2.inputs;
          last_sequence = h.2.last_sequence;
        },
      );
      write = λ o k t s m d fine h e p below. (
        All-put (λ e. Good given.plan.evaluator d0.last_sequence e.1) k s m
            (λ j q. written_Good o k t s m fine h.0 e p) h.0,
        written_length k s m h.1 below,
        h.2,
      );
      delete = λ k m d h. (
        All-remove (λ e. Good given.plan.evaluator d0.last_sequence e.1) k m h.0,
        omega (arith, h.1, length-remove-le k m),
        h.2,
      );
      timer = λ k t m d h. (
        h.0,
        h.1,
        record {
          watch = h.2.watch;
          receipts = h.2.receipts;
          pushes = h.2.pushes;
          inputs = h.2.inputs;
          last_sequence = h.2.last_sequence;
        },
      );
      event = λ w e c m d d' h quiet p. (h.0, h.1, Quiet-Fixed d0 d d' quiet h.2);
    }

    -- The evaluation of the inputs numbered up to the last sequence.
    pub evaluated-Valid :
        (os : List (Observation F))
        → Valid given.plan.evaluator given.plan.max_entities d0
        → All (λ o. o.sequence ≤ d0.last_sequence) os
        → Ensures
            (λ d. Valid given.plan.evaluator given.plan.max_entities d × Fixed d0 d)
            (evaluated app given batch input push now late os d0)
    evaluated-Valid os h fine =
        Ensures-mono
          (Settled app given batch input push now late (λ o. o.sequence ≤ d0.last_sequence) Safe)
          (λ d. Valid given.plan.evaluator given.plan.max_entities d × Fixed d0 d)
          (evaluated app given batch input push now late os d0)
          (λ d g. (
            record {
              unique = g.unique;
              good =
                  subst (λ n. All (λ e. Good given.plan.evaluator n e.1) d.entities)
                    (sym g.holds.2.last_sequence)
                    (All-of_find (Good given.plan.evaluator d0.last_sequence) d.entities g.unique
                      (λ k.
                        subst (Each (Good given.plan.evaluator d0.last_sequence)) (sym (g.agree k))
                          (All-find (Good given.plan.evaluator d0.last_sequence) k g.table
                            g.holds.0)));
              bounded = omega (arith, g.sizes, g.holds.1);
            },
            g.holds.2,
          ))
          (evaluated-Settled app given batch input push now late
            (λ o. o.sequence ≤ d0.last_sequence) Safe Safe-Steady os d0 h.unique
            (
              h.good,
              h.bounded,
              record {
                watch = refl;
                receipts = refl;
                pushes = refl;
                inputs = refl;
                last_sequence = refl;
              },
            )
            fine)
