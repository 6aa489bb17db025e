-- ===== src/Plan/Settled.antt =====
-- The policy and the limits that `Compile` gives, compiled again.
use ding.Base.{
  ℕ, ◌*◌, ◌≡◌, refl, sym, ap, ◌∙◌, subst, String, Bool, true, false, not, ◌&&◌, ◌||◌, some, str_eq,
  ok, err, Result, arith, ◌>>=◌, if◌then◌else◌, eq_iff, Bool-cases, inl, inr, and_left, and_right,
  if_cases,
}
use ding.Base.Int.{pos, int_eq}
use ding.Base.Ensures.{ok_injective}
use ding.Plan.Durations.{
  Durations, Check, second, day_long, within, duration, nanoseconds, normal_duration,
}
use ding.Plan.Normal.{
  passed, bind-ok, bind-from, or_text-keeps, or_int-keeps, normal_duration-empty, duration-normal,
  normal_duration-again,
}
use ding.Plan.Policy.{
  WatchPolicy, policy_defaults, counts_checked, shape_checked, interval_error, interval_checked,
  with_gap_default, gap_checked, policy_checked, normal_policy, compile_policy,
}

-- The checks of an interval and of a gap pass for another text that is empty where the first is and
-- means the same.
interval_steps :
    (level empty empty' : Bool) (r r' : Result ℕ)
    → ((d : ℕ) → r ≡ ok d → r' ≡ ok d)
    → empty' ≡ empty
    → (if level
        then interval_error r
        else if not empty
        then err "interval belongs to level policy"
        else ok tt)
      ≡ ok tt
    → (if level
        then interval_error r'
        else if not empty'
        then err "interval belongs to level policy"
        else ok tt)
      ≡ ok tt
interval_steps true empty empty' (ok d) r' k q h = ap interval_error (k d refl)
interval_steps true empty empty' (err e) r' k q h = cc
interval_steps false empty empty' r r' k q h =
    ap (λ b. if not b then err "interval belongs to level policy" else ok tt) q ∙ h

abbrev gap_result : Bool → Result ℕ → Check
gap_result empty r = if empty then ok tt else r >>= (λ d. ok tt)

gap_steps :
    (empty empty' : Bool) (r r' : Result ℕ)
    → ((d : ℕ) → r ≡ ok d → r' ≡ ok d)
    → empty' ≡ empty
    → gap_result empty r ≡ ok tt
    → gap_result empty' r' ≡ ok tt
gap_steps true true r r' k q h = refl
gap_steps true false r r' k q h = cc
gap_steps false true r r' k q h = refl
gap_steps false false (ok d) r' k q h = bind-from r' _ (k d refl) refl
gap_steps false false (err e) r' k q h = cc

-- What the checks of a policy say of its fields.
counts_known :
    (p : WatchPolicy)
    → counts_checked p ≡ ok tt
    → (str_eq p.trigger "transition" || str_eq p.trigger "level" ≡ true)
      × ((within 1 10000 p.consecutive
            && within 1 10000 p.recover_after
            && str_eq p.on_unknown "hold-incident")
          ≡ true)
unfolding counts_checked
counts_known p h =
    let known = passed (str_eq p.trigger "transition" || str_eq p.trigger "level") _ _ h in
    let counts =
      passed
        (within 1 10000 p.consecutive
          && within 1 10000 p.recover_after
          && str_eq p.on_unknown "hold-incident")
        _ _ known.1 in
    (known.0, counts.0)

trigger_full : (t : String) → str_eq t "transition" || str_eq t "level" ≡ true → str_eq t "" ≡ false
trigger_full t h = elim (Bool-cases (str_eq t "transition")) [
  | inl e ↦ ap (λ x. str_eq x "") ((eq_iff t "transition").0 e)
  | inr e ↦
      ap (λ x. str_eq x "") ((eq_iff t "level").0 (subst (λ b. b || str_eq t "level" ≡ true) e h))
]

defaults_kept : (p : WatchPolicy) → counts_checked p ≡ ok tt → policy_defaults p ≡ p
unfolding policy_defaults
defaults_kept p h =
    let known = counts_known p h in
    let both =
      and_left (within 1 10000 p.consecutive && within 1 10000 p.recover_after) _ known.1 in
    λ i. record p {
      trigger = or_text-keeps "transition" p.trigger (trigger_full p.trigger known.0) i;
      consecutive =
          or_int-keeps 1 1 10000 p.consecutive (omega arith)
            (and_left (within 1 10000 p.consecutive) _ both) i;
      recover_after =
          or_int-keeps 1 1 10000 p.recover_after (omega arith)
            (and_right (within 1 10000 p.consecutive) _ both) i;
      on_unknown =
          or_text-keeps "hold-incident" p.on_unknown
            (ap (λ x. str_eq x "")
              ((eq_iff p.on_unknown "hold-incident").0 (
                and_right (within 1 10000 p.consecutive && within 1 10000 p.recover_after) _
                  known.1)))
            i;
    }

module _ (durations : Durations)
    (reads_back : (d : ℕ) → durations.parse (durations.print d) ≡ some d)
    (prints : (d : ℕ) → str_eq (durations.print d) "" ≡ false) where
  -- A policy has no gap only where the source has no cadence.
  gap_given :
      (every : String) (p : WatchPolicy)
      → (str_eq (with_gap_default durations every p).max_gap "" && not (str_eq every "")) ≡ false
  unfolding with_gap_default
  gap_given every p =
      if_cases (λ (q : WatchPolicy). (str_eq q.max_gap "" && not (str_eq every "")) ≡ false)
        (str_eq p.max_gap "" && not (str_eq every ""))
        record p { max_gap = durations.print (nanoseconds durations every * 2) } p
        (λ e. ap (λ x. x && not (str_eq every "")) (prints (nanoseconds durations every * 2)))
        (λ e. e)

  gap_kept :
      (every : String) (p : WatchPolicy)
      → (str_eq p.max_gap "" && not (str_eq every "")) ≡ false
      → with_gap_default durations (normal_duration durations every) (normal_policy durations p)
        ≡ normal_policy durations p
  unfolding with_gap_default normal_policy
  gap_kept every p h =
      ap
        (λ b.
          if b
          then record (normal_policy durations p) {
            max_gap = durations.print (nanoseconds durations (normal_duration durations every) * 2);
          }
          else normal_policy durations p)
        ((λ i.
            normal_duration-empty durations reads_back prints p.max_gap i
            && not (normal_duration-empty durations reads_back prints every i))
          ∙ h)

  interval_kept :
      (p : WatchPolicy)
      → interval_checked durations p ≡ ok tt
      → interval_checked durations (normal_policy durations p) ≡ ok tt
  unfolding interval_checked normal_policy
  interval_kept p h =
      interval_steps (str_eq p.trigger "level") (str_eq p.interval "")
        (str_eq (normal_duration durations p.interval) "")
        (duration durations p.interval 0 (30 * day_long))
        (duration durations (normal_duration durations p.interval) 0 (30 * day_long))
        (duration-normal durations reads_back prints p.interval 0 (30 * day_long))
        (normal_duration-empty durations reads_back prints p.interval) h

  gap_checked_kept :
      (p : WatchPolicy)
      → gap_checked durations p ≡ ok tt
      → gap_checked durations (normal_policy durations p) ≡ ok tt
  unfolding gap_checked normal_policy
  gap_checked_kept p h =
      gap_steps (str_eq p.max_gap "") (str_eq (normal_duration durations p.max_gap) "")
        (duration durations p.max_gap second (30 * day_long))
        (duration durations (normal_duration durations p.max_gap) second (30 * day_long))
        (duration-normal durations reads_back prints p.max_gap second (30 * day_long))
        (normal_duration-empty durations reads_back prints p.max_gap) h

  counts_kept : (p : WatchPolicy) → counts_checked (normal_policy durations p) ≡ counts_checked p
  unfolding counts_checked normal_policy
  counts_kept p = refl

  policy_normal_again :
      (p : WatchPolicy)
      → normal_policy durations (normal_policy durations p) ≡ normal_policy durations p
  unfolding normal_policy
  policy_normal_again p = λ i. record p {
    interval = normal_duration-again durations reads_back prints p.interval i;
    max_gap = normal_duration-again durations reads_back prints p.max_gap i;
  }

  shape_kept :
      (missing_for operator : String) (p : WatchPolicy)
      → shape_checked (normal_duration durations missing_for) operator (normal_policy durations p)
        ≡ shape_checked missing_for operator p
  unfolding shape_checked normal_policy
  shape_kept missing_for operator p =
      ap
        (λ b.
          if not b
            && not (
                str_eq p.trigger "transition"
                && int_eq p.consecutive (pos 1)
                && int_eq p.recover_after (pos 1))
          then err "missingFor requires transition policy with consecutive=1 and recoverAfter=1"
          else if (str_eq operator "changed" || str_eq operator "new-event")
              && not (str_eq p.trigger "level" && int_eq p.consecutive (pos 1))
          then err "change/event conditions require level policy with consecutive=1"
          else ok tt)
        (normal_duration-empty durations reads_back prints missing_for)

  checks_kept :
      (every missing_for operator : String) (p : WatchPolicy)
      → policy_checked durations every missing_for operator p ≡ ok tt
      → (counts_checked p ≡ ok tt)
        × (policy_checked durations
              (normal_duration durations every)
              (normal_duration durations missing_for)
              operator
              (normal_policy durations p)
            ≡ ok tt)
  unfolding policy_checked
  checks_kept every missing_for operator p h =
      let counts = bind-ok (counts_checked p) _ h in
      let interval = bind-ok (interval_checked durations p) _ counts.1.1 in
      let gap = bind-ok (gap_checked durations p) _ interval.1.1 in
      (
        counts.1.0,
        bind-from (counts_checked (normal_policy durations p)) _ (counts_kept p ∙ counts.1.0) (
            bind-from (interval_checked durations (normal_policy durations p)) _
              (interval_kept p interval.1.0)
              (bind-from (gap_checked durations (normal_policy durations p)) _
                (gap_checked_kept p gap.1.0) (shape_kept missing_for operator p ∙ gap.1.1))),
      )

  policy_again :
      (every missing_for operator : String) (p : WatchPolicy)
      → counts_checked p ≡ ok tt
      → (str_eq p.max_gap "" && not (str_eq every "")) ≡ false
      → policy_checked durations
          (normal_duration durations every)
          (normal_duration durations missing_for)
          operator
          (normal_policy durations p)
        ≡ ok tt
      → compile_policy durations
          (normal_duration durations every)
          (normal_duration durations missing_for)
          operator
          (normal_policy durations p)
        ≡ ok (normal_policy durations p)
  unfolding compile_policy
  policy_again every missing_for operator p counts gap h =
      let n = normal_policy durations p in
      let cadence = normal_duration durations every in
      let same =
        ap (with_gap_default durations cadence) (defaults_kept n (counts_kept p ∙ counts))
        ∙ gap_kept every p gap in
      subst
        (λ q.
          (policy_checked durations cadence (normal_duration durations missing_for) operator q
            >>= (λ checked. ok (normal_policy durations q)))
          ≡ ok n)
        (sym same) (bind-from _ _ h (ap ok (policy_normal_again p)))

  -- A policy that Compile gives, compiled again beside the normal forms of the cadence and of
  -- missingFor, is accepted and stays as it is: the defaults and the gap that was derived from
  -- the cadence are kept. Asked is that a duration that was printed reads back as it was and is
  -- not printed as the empty text.
  pub compile_policy-again :
      (every missing_for operator : String) (p q : WatchPolicy)
      → compile_policy durations every missing_for operator p ≡ ok q
      → compile_policy durations
          (normal_duration durations every)
          (normal_duration durations missing_for)
          operator
          q
        ≡ ok q
  unfolding compile_policy
  compile_policy-again every missing_for operator p q h =
      let full = with_gap_default durations every (policy_defaults p) in
      let checked = bind-ok (policy_checked durations every missing_for operator full) _ h in
      let kept = checks_kept every missing_for operator full checked.1.0 in
      subst
        (λ x.
          compile_policy durations (normal_duration durations every)
            (normal_duration durations missing_for) operator x
          ≡ ok x)
        (ok_injective checked.1.1)
        (policy_again every missing_for operator full kept.0 (gap_given every (policy_defaults p))
          kept.1)
