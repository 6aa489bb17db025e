-- ===== src/Plan/Kept.antt =====
-- The destinations that `Compile` gives a watch, compiled again.
use Prim.Native.String.{compare}
use Prim.Native.Nat.{Ordering}
use ding.Base.{
  ◌≡◌, refl, sym, ap, ◌∙◌, String, Bool, true, false, not, ◌||◌, List, [], ◌∷◌, length, str_eq, ltb,
  Result, ok, err, if◌then◌else◌, arith, All, and_left, and_right, Bool-cases, inl, inr, eq_iff,
}
use ding.Condition.Routing.{listed, sort_strings}
use ding.Plan.Names.{is_identifier}
use ding.Plan.Normal.{bind-from, few_passes}
use ding.Plan.Targets.{
  WatchTarget, is_event_type, default_events, events_of, insert_target, sort_targets,
  events_checked, targets_checked, compile_targets,
}
use ding.Plan.Distinct.{distinct, every, refs_of, Fresh, str_eq_refl}
use ding.Plan.Sorted.{IsAscending, IsSorted, IsAscending-IsSorted, sort_strings-sorted}
use ding.Plan.Clean.{Subscribed, compile_targets-Clean}

insert_target-first :
    (t : WatchTarget) (us : List WatchTarget)
    → IsAscending t.ref (refs_of us)
    → insert_target t us ≡ t ∷ us
unfolding insert_target IsAscending
insert_target-first t [] h = refl
insert_target-first t (u ∷ us) h = place (compare t.ref u.ref) refl
  where
    place :
        (o : Ordering)
        → compare t.ref u.ref ≡ o
        → (elim o [ Ordering.gt ↦ u ∷ insert_target t us | _ ↦ t ∷ u ∷ us ]) ≡ t ∷ u ∷ us
    place Ordering.gt q = absurd (h.0 q)
    place Ordering.lt q = refl
    place Ordering.eq q = refl

pub sort_targets-sorted : (us : List WatchTarget) → IsSorted (refs_of us) → sort_targets us ≡ us
unfolding sort_targets IsSorted
sort_targets-sorted [] h = refl
sort_targets-sorted (t ∷ us) h =
    ap (insert_target t) (sort_targets-sorted us (IsAscending-IsSorted t.ref (refs_of us) h))
    ∙ insert_target-first t us h

-- Fresh texts, taken one by one.
Fresh-head :
    (p : String → Bool) (seen es : List String) (e : String)
    → Fresh p seen (e ∷ es)
    → (p e ≡ true) × (listed e seen ≡ false)
unfolding every distinct listed
Fresh-head p seen es e f = (
  and_left (p e) (every p es) f.valid,
  elim (Bool-cases (listed e seen)) [
    | inl q ↦ (let r = f.unseen e q in let s = str_eq_refl e in ground (arith, r, s))
    | inr q ↦ q
  ],
)

Fresh-tail :
    (p : String → Bool) (seen es : List String) (e : String)
    → Fresh p seen (e ∷ es)
    → Fresh p (e ∷ seen) es
unfolding every distinct listed
Fresh-tail p seen es e f = record {
  valid = and_right (p e) (every p es) f.valid;
  apart = and_right (not (listed e es)) (distinct es) f.apart;
  unseen = λ y q. elim (Bool-cases (str_eq e y)) [
    | inl r ↦ ap (λ t. listed t es) (sym ((eq_iff e y).0 r)) ∙ ground (arith, f.apart)
    | inr r ↦ ground (arith, r, q, f.unseen y)
  ];
}

-- Nothing was seen at the start.
Fresh-start :
    (p : String → Bool) (es : List String) → every p es ≡ true → distinct es ≡ true → Fresh p [] es
unfolding listed
Fresh-start p es h k = record { valid = h; apart = k; unseen = λ y q. cc }

seen_passes {ℓ} :
    {A : Type ℓ} (b c : Bool) (e : String) (r : Result A) {x : Result A}
    → b ≡ true
    → c ≡ false
    → r ≡ x
    → (if not b || c then err e else r) ≡ x
seen_passes true true e r h k q = cc
seen_passes true false e r h k q = q
seen_passes false c e r h k q = cc

module _ (quote : String → String) where
  events_checked-passes :
      (seen es : List String) → Fresh is_event_type seen es → events_checked quote seen es ≡ ok tt
  unfolding events_checked
  events_checked-passes seen [] f = refl
  events_checked-passes seen (e ∷ es) f =
      let h = Fresh-head is_event_type seen es e f in
      let rest = events_checked-passes (e ∷ seen) es (Fresh-tail is_event_type seen es e f) in
      seen_passes (is_event_type e) (listed e seen) _ (events_checked quote (e ∷ seen) es) h.0 h.1
        rest

  -- A subscribed target is what its own events make of it.
  Subscribed-same :
      (t : WatchTarget)
      → Subscribed t
      → (events_of t ≡ t.events) × (sort_strings (events_of t) ≡ t.events)
  unfolding events_of
  Subscribed-same t s =
      let same = ap (λ b. if b then default_events else t.events) s.some_event in
      (same, ap sort_strings same ∙ sort_strings-sorted t.events s.ordered)

  targets_checked-keeps :
      (seen : List String) (us : List WatchTarget)
      → Fresh is_identifier seen (refs_of us)
      → All Subscribed us
      → targets_checked quote seen us ≡ ok us
  unfolding targets_checked
  targets_checked-keeps seen [] f s = refl
  targets_checked-keeps seen (t ∷ us) f s =
      let h = Fresh-head is_identifier seen (refs_of us) t.ref f in
      let same = Subscribed-same t s.0 in
      seen_passes (is_identifier t.ref) (listed t.ref seen) _ _ h.0 h.1 (
        bind-from (events_checked quote [] (events_of t)) _
          (ap (events_checked quote []) same.0
            ∙ events_checked-passes [] t.events
                (Fresh-start is_event_type t.events s.0.known s.0.once))
          (bind-from (targets_checked quote (t.ref ∷ seen) us) _
            (targets_checked-keeps (t.ref ∷ seen) us
              (Fresh-tail is_identifier seen (refs_of us) t.ref f) s.1)
            (ap (λ es. ok (record t { events = es } ∷ us)) same.1)))

  -- The destinations that Compile gives a watch, compiled again, are accepted and stay as they
  -- are.
  pub compile_targets-again :
      (ts us : List WatchTarget)
      → compile_targets quote ts ≡ ok us
      → compile_targets quote us ≡ ok us
  unfolding compile_targets
  compile_targets-again ts us h =
      let c = compile_targets-Clean quote ts us h in
      few_passes (ltb 32 (length us)) _ _ (ground (arith, c.few)) (
        bind-from (targets_checked quote [] us) _
          (targets_checked-keeps [] us (Fresh-start is_identifier (refs_of us) c.named c.once)
            c.subscribed)
          (ap ok (sort_targets-sorted us c.ordered)))
