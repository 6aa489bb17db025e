-- ===== src/Plan/Bounds.antt =====
-- The limits and counts that `Compile` gives.
use ding.Base.{
  ℕ, ◌*◌, ◌≡◌, ◌≤◌, refl, subst, String, true, ◌&&◌, ◌||◌, str_eq, ok, arith, and_left, and_right,
}
use ding.Base.Int.{ℤ, pos, negsuc}
use ding.Base.Ensures.{ok_injective}
use ding.Plan.Durations.{Durations, second, day_long, within, duration}
use ding.Plan.Normal.{passed, bind-ok}
use ding.Plan.Policy.{
  WatchPolicy, Limits, policy_defaults, limits_defaults, in_bounds, counts_checked,
  with_gap_default, policy_checked, normal_policy, limits_checked, normal_limits, compile_policy,
  compile_limits,
}

-- A number from `low` to `high`.
pub record Between (low high : ℕ) (n : ℤ) : Type 0 where
  pub value : ℕ
  pub same : n ≡ pos value
  pub above : low ≤ value
  pub below : value ≤ high

within-Between : (low high : ℕ) (n : ℤ) → within low high n ≡ true → Between low high n
unfolding within
within-Between low high (pos n) h = record {
  value = n;
  same = refl;
  above = ground (arith, h);
  below = ground (arith, h);
}
within-Between low high (negsuc n) h = cc

-- The four limits within what the program supports.
pub record Supported (l : Limits) : Type 0 where
  pub entities : Between 1 10000 l.max_entities
  pub samples : Between 1 100000 l.max_samples
  pub bytes : Between 1 1048576 l.max_bytes
  pub outputs : Between 1 100 l.max_outputs

in_bounds-Supported : (l : Limits) → in_bounds l ≡ true → Supported l
unfolding in_bounds
in_bounds-Supported l h =
    let a = within 1 10000 l.max_entities in
    let b = within 1 100000 l.max_samples in
    let c = within 1 1048576 l.max_bytes in
    let abc = and_left (a && b && c) (within 1 100 l.max_outputs) h in
    let ab = and_left (a && b) c abc in
    record {
      entities = within-Between 1 10000 l.max_entities (and_left a b ab);
      samples = within-Between 1 100000 l.max_samples (and_right a b ab);
      bytes = within-Between 1 1048576 l.max_bytes (and_right (a && b) c abc);
      outputs =
          within-Between 1 100 l.max_outputs
            (and_right (a && b && c) (within 1 100 l.max_outputs) h);
    }

module _ (durations : Durations) where
  checked-parts :
      (l : Limits)
      → limits_checked durations l ≡ ok tt
      → (in_bounds l ≡ true)
        × ((d : ℕ) × (duration durations l.idle_ttl second (30 * day_long) ≡ ok d))
  unfolding limits_checked
  checked-parts l h =
      let p = passed (in_bounds l) _ _ h in
      let ttl = bind-ok (duration durations l.idle_ttl second (30 * day_long)) _ p.1 in
      (p.0, (ttl.0, ttl.1.0))

  -- The limits that Compile gives are numbers from 1 to 10000 entities, 100000 samples, 1048576
  -- bytes and 100 outputs.
  pub compile_limits-Supported : (l m : Limits) → compile_limits durations l ≡ ok m → Supported m
  unfolding compile_limits normal_limits
  compile_limits-Supported l m h =
      let q = limits_defaults l in
      let checked = bind-ok (limits_checked durations q) _ h in
      let s = in_bounds-Supported q (checked-parts q checked.1.0).0 in
      subst Supported (ok_injective checked.1.1)
        record { entities = s.entities; samples = s.samples; bytes = s.bytes; outputs = s.outputs }

  -- In a policy that Compile gives, consecutive and recoverAfter are numbers from 1 to 10000.
  pub compile_policy-bounds :
      (every missing_for operator : String) (p q : WatchPolicy)
      → compile_policy durations every missing_for operator p ≡ ok q
      → Between 1 10000 q.consecutive × Between 1 10000 q.recover_after
  unfolding compile_policy policy_checked counts_checked normal_policy
  compile_policy-bounds every missing_for operator p q h =
      let full = with_gap_default durations every (policy_defaults p) in
      let checked = bind-ok (policy_checked durations every missing_for operator full) _ h in
      let counts = bind-ok (counts_checked full) _ checked.1.0 in
      let known =
        passed (str_eq full.trigger "transition" || str_eq full.trigger "level") _ _ counts.1.0 in
      let within_all =
        passed
          (within 1 10000 full.consecutive
            && within 1 10000 full.recover_after
            && str_eq full.on_unknown "hold-incident")
          _ _ known.1 in
      let both =
        and_left (within 1 10000 full.consecutive && within 1 10000 full.recover_after) _
          within_all.0 in
      subst (λ x. Between 1 10000 x.consecutive × Between 1 10000 x.recover_after)
        (ok_injective checked.1.1)
        (
          within-Between 1 10000 full.consecutive
              (and_left (within 1 10000 full.consecutive) _ both),
          within-Between 1 10000 full.recover_after
              (and_right (within 1 10000 full.consecutive) _ both),
        )
