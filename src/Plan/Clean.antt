-- ===== src/Plan/Clean.antt =====
-- The destinations that `Compile` gives a watch.
use ding.Base.{
  ◌≡◌, ◌≤◌, refl, sym, ap, ◌∙◌, subst, String, Bool, true, false, ◌||◌, not, List, [], ◌∷◌, length,
  Result, ok, err, if◌then◌else◌, arith, All, ltb, ltb-false→le,
}
use ding.Base.Ensures.{ok_injective}
use ding.Condition.Routing.{insert_text, listed, sort_strings, is_empty}
use ding.Condition.Targets.{listed-sort_strings, length-sort_strings}
use ding.Plan.Names.{is_identifier}
use ding.Plan.Normal.{few_passed, bind-ok}
use ding.Plan.Targets.{
  WatchTarget, is_event_type, events_of, sort_targets, events_checked, targets_checked,
  compile_targets,
}
use ding.Plan.Sorted.{IsSorted, sort_strings-IsSorted}
use ding.Plan.Distinct.{
  distinct, every, distinct-sort_strings, every-sort_strings, refs_of, refs_of-sort_targets,
  All-sort_targets, Fresh, Fresh-none, Fresh-step, length-refs_of,
}

-- The test of the two loops, passed.
seen_passed {ℓ} :
    {A : Type ℓ} (b c : Bool) (e : String) (r : Result A) {a : A}
    → (if not b || c then err e else r) ≡ ok a
    → (b ≡ true) × ((c ≡ false) × (r ≡ ok a))
seen_passed true true e r h = cc
seen_passed true false e r h = (refl, (refl, h))
seen_passed false c e r h = cc

-- A target with events, each of them known, none twice, in order.
pub record Subscribed (t : WatchTarget) : Type 0 where
  pub some_event : is_empty t.events ≡ false
  pub known : every is_event_type t.events ≡ true
  pub once : distinct t.events ≡ true
  pub ordered : IsSorted t.events

-- What is compiled of the targets `ts`: as many, for the same references.
pub record Clean (ts us : List WatchTarget) : Type 0 where
  pub few : length us ≤ 32
  pub named : every is_identifier (refs_of us) ≡ true
  pub once : distinct (refs_of us) ≡ true
  pub same : (k : String) → listed k (refs_of us) ≡ listed k (refs_of ts)
  pub ordered : IsSorted (refs_of us)
  pub subscribed : All Subscribed us

module _ (quote : String → String) where
  events_checked-Fresh :
      (seen es : List String) → events_checked quote seen es ≡ ok tt → Fresh is_event_type seen es
  unfolding events_checked
  events_checked-Fresh seen [] h = Fresh-none is_event_type seen
  events_checked-Fresh seen (e ∷ es) h =
      let p = seen_passed (is_event_type e) (listed e seen) _ _ h in
      Fresh-step is_event_type seen es e p.0 p.1.0 (events_checked-Fresh (e ∷ seen) es p.1.1)

  events_of-some : (t : WatchTarget) → is_empty (events_of t) ≡ false
  unfolding events_of
  events_of-some t = ground arith

  insert_text-some : (x : String) (xs : List String) → is_empty (insert_text x xs) ≡ false
  unfolding insert_text
  insert_text-some x [] = refl
  insert_text-some x (y ∷ ys) = ground arith

  is_empty-sort_strings : (xs : List String) → is_empty (sort_strings xs) ≡ is_empty xs
  unfolding sort_strings
  is_empty-sort_strings [] = refl
  is_empty-sort_strings (x ∷ xs) = insert_text-some x (sort_strings xs)

  compiled_Subscribed :
      (t : WatchTarget)
      → events_checked quote [] (events_of t) ≡ ok tt
      → Subscribed record t { events = sort_strings (events_of t) }
  compiled_Subscribed t h =
      let f = events_checked-Fresh [] (events_of t) h in
      record {
        some_event = is_empty-sort_strings (events_of t) ∙ events_of-some t;
        known = every-sort_strings is_event_type (events_of t) ∙ f.valid;
        once = distinct-sort_strings (events_of t) ∙ f.apart;
        ordered = sort_strings-IsSorted (events_of t);
      }

  -- The result of the loop over targets.
  record Compiled (seen : List String) (ts us : List WatchTarget) : Type 0 where
    fresh : Fresh is_identifier seen (refs_of us)
    refs : refs_of us ≡ refs_of ts
    subscribed : All Subscribed us

  targets_checked-Compiled :
      (seen : List String) (ts us : List WatchTarget)
      → targets_checked quote seen ts ≡ ok us
      → Compiled seen ts us
  unfolding targets_checked
  targets_checked-Compiled seen [] us h =
      subst (Compiled seen []) (ok_injective h)
        record { fresh = Fresh-none is_identifier seen; refs = refl; subscribed = tt }
  targets_checked-Compiled seen (t ∷ ts) us h =
      let p = seen_passed (is_identifier t.ref) (listed t.ref seen) _ _ h in
      let events = bind-ok (events_checked quote [] (events_of t)) _ p.1.1 in
      let rest = bind-ok (targets_checked quote (t.ref ∷ seen) ts) _ events.1.1 in
      let c = targets_checked-Compiled (t.ref ∷ seen) ts rest.0 rest.1.0 in
      subst (Compiled seen (t ∷ ts)) (ok_injective rest.1.1) record {
        fresh = Fresh-step is_identifier seen (refs_of rest.0) t.ref p.0 p.1.0 c.fresh;
        refs = ap (λ xs. t.ref ∷ xs) c.refs;
        subscribed = (compiled_Subscribed t events.1.0, c.subscribed);
      }

  sorted_Clean :
      (ts us : List WatchTarget) → length ts ≤ 32 → Compiled [] ts us → Clean ts (sort_targets us)
  sorted_Clean ts us few c =
      let refs = refs_of-sort_targets us in
      let count =
        sym (length-refs_of (sort_targets us))
        ∙ ap length refs
        ∙ length-sort_strings (refs_of us)
        ∙ ap length c.refs
        ∙ length-refs_of ts in
      record {
        few = subst (λ n. n ≤ 32) (sym count) few;
        named =
            ap (every is_identifier) refs
            ∙ every-sort_strings is_identifier (refs_of us)
            ∙ c.fresh.valid;
        once = ap distinct refs ∙ distinct-sort_strings (refs_of us) ∙ c.fresh.apart;
        same = λ k. ap (listed k) refs ∙ listed-sort_strings k (refs_of us) ∙ ap (listed k) c.refs;
        ordered = subst IsSorted (sym refs) (sort_strings-IsSorted (refs_of us));
        subscribed = All-sort_targets Subscribed us c.subscribed;
      }

  -- The destinations that Compile gives a watch are at most 32, for the same references as
  -- those of the declaration. Each reference is an identifier and stands once, and each
  -- destination has at least one event, known events only and none twice. References and the
  -- events of each stand in order.
  pub compile_targets-Clean :
      (ts us : List WatchTarget) → compile_targets quote ts ≡ ok us → Clean ts us
  unfolding compile_targets
  compile_targets-Clean ts us h =
      let p = few_passed (ltb 32 (length ts)) _ _ h in
      let loop = bind-ok (targets_checked quote [] ts) _ p.1 in
      subst (Clean ts) (ok_injective loop.1.1) (
        sorted_Clean ts loop.0 (ltb-false→le 32 (length ts) p.0)
          (targets_checked-Compiled [] ts loop.0 loop.1.0))
