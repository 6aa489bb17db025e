-- ===== src/Runtime/Accept/Frame.antt =====
-- What each step of a transaction but the evaluation changes of the tables, and the sequences that
-- the appended observations get.
use ding.Base.{
  ℕ, suc, ◌+◌, ◌≡◌, ◌≤◌, ◌<◌, refl, ◌∙◌, subst, ap, String, List, [], ◌∷◌, Option, none, some,
  if◌then◌else◌, ok, err, All, length, arith, leb, ltb, ◌==◌, ◌&&◌, if_cases,
}
use ding.Base.Ensures.{Ensures, Ensures-bind, Ensures-if}
use ding.Base.Maps.{find, remove}
use ding.Watch.{Observation}
use ding.Runtime.Tables.{
  Db, WatchRecord, Timer, stale, quota, is_running, checkpoint, save_receipt, save_push_receipt,
  delete_timer, timer_gone, append_observation, with_input,
}
use ding.Runtime.Emission.{App}
use ding.Runtime.Accept.{
  completed, push_completed, push_receipt_of, within_bytes, first_of, last_of,
}
use ding.Runtime.Accept.Input.{
  Batch, PushInput, is_timer_input, take_timer, checkpointed, input_name, append_all, expired,
  expired_error,
}

-- The sequences follow each other, from the one after `n`.
abbrev pub Numbered : {F : Type 0} → ℕ → List (Observation F) → Type 0
Numbered n [] = Unit
Numbered n (o ∷ os) = (o.sequence ≡ suc n) × Numbered (suc n) os

pub Numbered-le :
    {F : Type 0} (n top : ℕ) (os : List (Observation F))
    → Numbered n os
    → n + length os ≤ top
    → All (λ o. o.sequence ≤ top) os
Numbered-le n top [] h le = tt
Numbered-le n top (o ∷ os) h le =
    (omega (arith, h.0, le), Numbered-le (suc n) top os h.1 (omega (arith, le)))

pub first_of-Numbered :
    {F : Type 0} (n : ℕ) (os : List (Observation F))
    → Numbered n os
    → 0 < length os
    → first_of os ≡ suc n
unfolding first_of
first_of-Numbered n [] h lt = omega (arith, lt)
first_of-Numbered n (o ∷ os) h lt = h.0

pub last_of-Numbered :
    {F : Type 0} (n : ℕ) (os : List (Observation F))
    → Numbered n os
    → 0 < length os
    → last_of os ≡ n + length os
unfolding last_of
last_of-Numbered n [] h lt = omega (arith, lt)
last_of-Numbered n (o ∷ []) h lt = omega (arith, h.0)
last_of-Numbered n (o ∷ o' ∷ os) h lt =
    omega (arith, last_of-Numbered (suc n) (o' ∷ os) h.1 (omega arith))

module _ {F : Type 0} where
  abbrev pub TimersOnly : Db F → Db F → Type 0
  TimersOnly d d' = d' ≡ record d { timers = d'.timers }

  abbrev pub WatchOnly : Db F → Db F → Type 0
  WatchOnly d d' = d' ≡ record d { watch = d'.watch }

  abbrev pub InputsOnly : Db F → Db F → Type 0
  InputsOnly d d' = d' ≡ record d { inputs = d'.inputs; last_sequence = d'.last_sequence }

  abbrev pub ReceiptsOnly : Db F → Db F → Type 0
  ReceiptsOnly d d' = d' ≡ record d { receipts = d'.receipts; pushes = d'.pushes }

  timer_gone-TimersOnly :
      (k : String) (t : Timer) (o : Option Timer) (d : Db F) → TimersOnly d (timer_gone k t o d)
  unfolding timer_gone
  timer_gone-TimersOnly k t none d = refl
  timer_gone-TimersOnly k t (some u) d =
      if_cases (TimersOnly d) ((u.generation == t.generation) && (u.due == t.due))
        (record d { timers = remove k d.timers }) d (λ q. refl) (λ q. refl)

  append_observation-Added :
      (generation : ℕ) (id : String) (o : Observation F) (d : Db F)
      → Ensures
          (λ r.
            (r.0 ≡ suc d.last_sequence)
            × (r.1.last_sequence ≡ suc d.last_sequence)
            × InputsOnly d r.1)
          (append_observation generation id o d)
  unfolding append_observation with_input
  append_observation-Added generation id o d =
      Ensures-if
        (λ (r : ℕ × Db F).
          (r.0 ≡ suc d.last_sequence)
          × (r.1.last_sequence ≡ suc d.last_sequence)
          × InputsOnly d r.1)
        _ (err "constraint failed") (ok (suc d.last_sequence, with_input generation id o d))
        (λ q. tt) (λ q. (refl, refl, refl))

  InputsOnly-trans : (a b c : Db F) → InputsOnly a b → InputsOnly b c → InputsOnly a c
  InputsOnly-trans a b c p q =
      q ∙ ap {A = Db F} (λ x. record x { inputs = c.inputs; last_sequence = c.last_sequence }) p

  delete_timer-TimersOnly : (k : String) (t : Timer) (d : Db F) → TimersOnly d (delete_timer k t d)
  unfolding delete_timer
  delete_timer-TimersOnly k t d = timer_gone-TimersOnly k t (find k d.timers) d

  module _ (app : App F) (given : WatchRecord F) (batch : Batch F) (input : String)
      (push : Option PushInput) (now late : ℕ) where
    pub take_timer-TimersOnly :
        (d : Db F) → Ensures (TimersOnly d) (take_timer app given batch input now d)
    unfolding take_timer
    take_timer-TimersOnly d =
        Ensures-if (TimersOnly d) (is_timer_input batch) _ (ok d)
          (λ q. cases (find batch.entity d.timers)) (λ q. refl)
      where
        cases :
            (o : Option Timer)
            → Ensures (TimersOnly d) (elim o [
              | none ↦ err stale
              | some t ↦
                  if (t.generation == d.watch.generation)
                    && ((t.due == batch.deadline) && leb t.due now)
                  then ok (delete_timer batch.entity t d)
                  else err stale
            ])
        cases none = tt
        cases (some t) =
            Ensures-if (TimersOnly d) _ (ok (delete_timer batch.entity t d)) (err stale)
              (λ q. delete_timer-TimersOnly batch.entity t d) (λ q. tt)

    -- A checkpoint keeps what the fence reads.
    pub record Checked (d d' : Db F) : Type 0 where
      pub only : WatchOnly d d'
      pub generation : d'.watch.generation ≡ d.watch.generation
      pub status : d'.watch.status ≡ d.watch.status
      pub plan : d'.watch.plan ≡ d.watch.plan
      pub lifetime : d'.watch.lifetime ≡ d.watch.lifetime

    pub checkpointed-Checked :
        (d : Db F) → Ensures (Checked d) (checkpointed app given batch input now d)
    unfolding checkpointed checkpoint
    checkpointed-Checked d =
        Ensures-if (Checked d) (is_timer_input batch) (ok d) _
          (λ q. record {
            only = refl;
            generation = refl;
            status = refl;
            plan = refl;
            lifetime = refl;
          })
          (λ q.
            Ensures-if (Checked d)
              ((d.watch.generation == d.watch.generation) && is_running d.watch.status) _
              (err stale)
              (λ p. record {
                only = refl;
                generation = refl;
                status = refl;
                plan = refl;
                lifetime = refl;
              })
              (λ p. tt))

    pub record Added (n : ℕ) (d : Db F) (r : List (Observation F) × Db F) : Type 0 where
      pub only : InputsOnly d r.1
      pub numbered : Numbered d.last_sequence r.0
      pub total : r.1.last_sequence ≡ d.last_sequence + length r.0
      pub count : length r.0 ≡ n

    pub append_all-Added :
        (i generation : ℕ) (os : List (Observation F)) (d : Db F)
        → Ensures (Added (length os) d) (append_all app given batch input now i generation os d)
    unfolding append_all append_observation
    append_all-Added i generation [] d = record {
      only = refl;
      numbered = tt;
      total = omega arith;
      count = refl;
    }
    append_all-Added i generation (o ∷ os) d =
        Ensures-bind
          (λ r.
            (r.0 ≡ suc d.last_sequence)
            × (r.1.last_sequence ≡ suc d.last_sequence)
            × InputsOnly d r.1)
          (Added (suc (length os)) d)
          (append_observation generation (input_name app given batch input now i) o d) _
          (append_observation-Added generation (input_name app given batch input now i) o d)
          (λ (r : ℕ × Db F) h.
            Ensures-bind (Added (length os) r.1) (Added (suc (length os)) d)
              (append_all app given batch input now (suc i) generation os r.1) _
              (append_all-Added (suc i) generation os r.1)
              (λ (q : List (Observation F) × Db F) g. record {
                only = InputsOnly-trans d r.1 q.1 h.2 g.only;
                numbered = (h.0, subst (λ n. Numbered n q.0) h.1 g.numbered);
                total = omega (arith, g.total, h.1);
                count = ap suc g.count;
              }))

    pub completed-ReceiptsOnly :
        (m n : ℕ) (d : Db F)
        → Ensures (ReceiptsOnly d) (completed app given batch input push now late m n d)
    unfolding completed push_completed within_bytes save_receipt save_push_receipt
    completed-ReceiptsOnly m n d = cases push
      where
        cases :
            (p : Option PushInput)
            → Ensures (ReceiptsOnly d) (completed app given batch input p now late m n d)
        cases none = refl
        cases (some p) =
            Ensures-if (ReceiptsOnly d) (expired app given batch input now p late)
              (err expired_error) _ (λ q. tt)
              (λ q.
                let d' =
                  save_push_receipt
                    (push_receipt_of app given batch input (some p) now late p m n d) d in
                Ensures-if (ReceiptsOnly d) (ltb app.max_bytes (app.bytes d')) (err quota) (ok d')
                  (λ q2. tt) (λ q2. refl))
