-- ===== src/Plan/Policy.antt =====
-- internal/plan/compile.go: the part of `Compile` on the policy and the limits of a watch.
use Prim.Native.String.{◌++◌ as append}
use ding.Base.{ℕ, ◌*◌, String, Bool, ◌&&◌, ◌||◌, not, str_eq, Result, ok, err, ◌>>=◌, if◌then◌else◌}
use ding.Base.Int.{ℤ, pos, int_eq}
use ding.Plan.Durations.{
  Durations, Check, second, day_long, or_text, or_int, within, duration, nanoseconds,
  normal_duration,
}

pub record WatchPolicy : Type 0 where
  pub trigger : String
  pub consecutive : ℤ
  pub recover_after : ℤ
  pub on_unknown : String
  pub interval : String
  pub max_gap : String

pub record Limits : Type 0 where
  pub max_entities : ℤ
  pub max_samples : ℤ
  pub max_bytes : ℤ
  pub max_outputs : ℤ
  pub idle_ttl : String

unfoldable pub policy_defaults : WatchPolicy → WatchPolicy
unfolding or_text or_int
policy_defaults p = record p {
  trigger = or_text "transition" p.trigger;
  consecutive = or_int 1 p.consecutive;
  recover_after = or_int 1 p.recover_after;
  on_unknown = or_text "hold-incident" p.on_unknown;
}

unfoldable pub limits_defaults : Limits → Limits
unfolding or_int or_text
limits_defaults l = record {
  max_entities = or_int 1000 l.max_entities;
  max_samples = or_int 10000 l.max_samples;
  max_bytes = or_int 1048576 l.max_bytes;
  max_outputs = or_int 100 l.max_outputs;
  idle_ttl = or_text "24h" l.idle_ttl;
}

unfoldable pub in_bounds : Limits → Bool
unfolding within
in_bounds l =
    within 1 10000 l.max_entities
    && within 1 100000 l.max_samples
    && within 1 1048576 l.max_bytes
    && within 1 100 l.max_outputs

unfoldable pub counts_checked : WatchPolicy → Check
unfolding within
counts_checked p =
    if not (str_eq p.trigger "transition" || str_eq p.trigger "level")
    then err "trigger must be transition or level"
    else if not (
        within 1 10000 p.consecutive
        && within 1 10000 p.recover_after
        && str_eq p.on_unknown "hold-incident")
    then err "invalid count or unknown policy"
    else ok tt

-- What the condition of the watch asks of the policy: `missingFor`, and the operators "changed" and
-- "new-event".
unfoldable pub shape_checked : String → String → WatchPolicy → Check
shape_checked missing_for operator p =
    if not (str_eq missing_for "")
      && not (
          str_eq p.trigger "transition"
          && int_eq p.consecutive (pos 1)
          && int_eq p.recover_after (pos 1))
    then err "missingFor requires transition policy with consecutive=1 and recoverAfter=1"
    else if (str_eq operator "changed" || str_eq operator "new-event")
        && not (str_eq p.trigger "level" && int_eq p.consecutive (pos 1))
    then err "change/event conditions require level policy with consecutive=1"
    else ok tt

-- `fmt.Errorf("level policy requires interval: %w", err)`.
abbrev pub interval_error : Result ℕ → Check
interval_error (ok d) = ok tt
interval_error (err e) = err (append "level policy requires interval: " e)

module _ (durations : Durations) where
  unfoldable pub interval_checked : WatchPolicy → Check
  unfolding duration
  interval_checked p =
      if str_eq p.trigger "level"
      then interval_error (duration durations p.interval 0 (30 * day_long))
      else if not (str_eq p.interval "")
      then err "interval belongs to level policy"
      else ok tt

  -- A source that is polled may miss one poll.
  unfoldable pub with_gap_default : String → WatchPolicy → WatchPolicy
  unfolding nanoseconds
  with_gap_default every p =
      if str_eq p.max_gap "" && not (str_eq every "")
      then record p { max_gap = durations.print (nanoseconds durations every * 2) }
      else p

  unfoldable pub gap_checked : WatchPolicy → Check
  unfolding duration
  gap_checked p =
      if str_eq p.max_gap ""
      then ok tt
      else duration durations p.max_gap second (30 * day_long) >>= (λ d. ok tt)

  -- The policy after its defaults, with the cadence `every` of the source.
  unfoldable pub policy_checked : String → String → String → WatchPolicy → Check
  unfolding counts_checked shape_checked interval_checked gap_checked
  policy_checked every missing_for operator p = counts_checked p >>= (λ counts.
      interval_checked p
      >>= (λ interval. gap_checked p >>= (λ gap. shape_checked missing_for operator p)))

  unfoldable pub normal_policy : WatchPolicy → WatchPolicy
  unfolding normal_duration
  normal_policy p = record p {
    interval = normal_duration durations p.interval;
    max_gap = normal_duration durations p.max_gap;
  }

  unfoldable pub limits_checked : Limits → Check
  unfolding in_bounds duration
  limits_checked l =
      if not (in_bounds l)
      then err "watch resource limits exceed supported bounds"
      else duration durations l.idle_ttl second (30 * day_long) >>= (λ d. ok tt)

  unfoldable pub normal_limits : Limits → Limits
  unfolding normal_duration
  normal_limits l = record l { idle_ttl = normal_duration durations l.idle_ttl }

  unfoldable pub compile_policy : String → String → String → WatchPolicy → Result WatchPolicy
  unfolding policy_defaults with_gap_default policy_checked normal_policy
  compile_policy every missing_for operator p =
      let q = with_gap_default every (policy_defaults p) in
      policy_checked every missing_for operator q >>= (λ checked. ok (normal_policy q))

  unfoldable pub compile_limits : Limits → Result Limits
  unfolding limits_defaults limits_checked normal_limits
  compile_limits l =
      let q = limits_defaults l in limits_checked q >>= (λ checked. ok (normal_limits q))
