-- ===== src/Hosting/Capacity.antt =====
-- internal/hostingpolicy/capacity.go: Capacity, `Effective`, `Validate` and `Limits`.
use ding.Base.{
  ℕ, ◌+◌, ◌*◌, ◌^◌, Bool, true, false, ◌||◌, String, Option, none, some, ltb, ◌==◌, if◌then◌else◌,
}
use ding.Base.Int.{ℤ, pos, negsuc}

pub record Capacity : Type 0 where
  pub api_rate : ℤ
  pub api_burst : ℤ
  pub outbound_checks : ℤ
  pub outbound_deliveries : ℤ
  pub outbound_bytes : ℤ
  pub max_watches : ℤ
  pub max_destinations : ℤ
  pub max_pending : ℤ
  pub max_store_bytes : ℤ
  pub retention_days : ℤ
  pub min_poll_seconds : ℤ
  pub max_body_bytes : ℤ
  pub max_entities : ℤ
  pub max_samples : ℤ
  pub max_outputs : ℤ

-- A field that is not set has its default.
unfoldable pub or_default : ℤ → ℕ → ℤ
or_default (pos n) d = if n == 0 then pos d else pos n
or_default (negsuc n) d = negsuc n

unfoldable pub effective : Capacity → Capacity
unfolding or_default
effective c = record c {
  api_rate = or_default c.api_rate 20;
  api_burst = or_default c.api_burst 100;
  max_watches = or_default c.max_watches 1000;
  max_destinations = or_default c.max_destinations 100;
  max_pending = or_default c.max_pending 10000;
  max_store_bytes = or_default c.max_store_bytes (128 * 2 ^ 20);
  retention_days = or_default c.retention_days 7;
  min_poll_seconds = or_default c.min_poll_seconds 1;
  max_body_bytes = or_default c.max_body_bytes (2 ^ 20);
  max_entities = or_default c.max_entities 1000;
  max_samples = or_default c.max_samples 10000;
  max_outputs = or_default c.max_outputs 100;
}

-- `v < low || v > high`.
unfoldable pub outside : ℕ → ℕ → ℤ → Bool
outside low high (pos n) = ltb n low || ltb high n
outside low high (negsuc n) = true

unfoldable pub is_negative : ℤ → Bool
is_negative (pos n) = false
is_negative (negsuc n) = true

unfoldable pub bad_admission : Capacity → Bool
unfolding outside
bad_admission c = outside 1 1000 c.api_rate || outside 1 10000 c.api_burst

unfoldable pub bad_budget : Capacity → Bool
unfolding is_negative
bad_budget c =
    is_negative c.outbound_checks
    || (is_negative c.outbound_deliveries || is_negative c.outbound_bytes)

unfoldable pub bad_store : Capacity → Bool
unfolding outside
bad_store c =
    outside 1 10000 c.max_watches
    || (outside 1 1000 c.max_destinations
        || (outside 1 100000 c.max_pending
            || (outside (2 ^ 20) (2 ^ 40) c.max_store_bytes || outside 1 30 c.retention_days)))

unfoldable pub bad_watch : Capacity → Bool
unfolding outside
bad_watch c =
    outside 1 86400 c.min_poll_seconds
    || (outside 1024 (2 ^ 20) c.max_body_bytes
        || (outside 1 10000 c.max_entities
            || (outside 1 100000 c.max_samples || outside 1 100 c.max_outputs)))

unfoldable pub check : Capacity → Option String
unfolding bad_admission bad_budget bad_store bad_watch
check c =
    if bad_admission c
    then some "invalid workspace API admission bounds"
    else if bad_budget c
    then some "outbound budgets must be nonnegative; zero disables cumulative quotas"
    else if bad_store c || bad_watch c
    then some
        "invalid cloud capacity; storage and watch bounds must fit their supported representation"
    else none

-- The error, if there is one.
unfoldable pub validate : Capacity → Option String
unfolding effective check
validate c = check (effective c)

-- `watchrun.Limits`; the retention is in hours.
pub record RuntimeLimits : Type 0 where
  pub watches : ℤ
  pub destinations : ℤ
  pub pending : ℤ
  pub bytes : ℤ
  pub retention : ℤ

unfoldable pub hours : ℤ → ℤ
hours (pos n) = pos (n * 24)
hours (negsuc n) = negsuc (n * 24 + 23)

unfoldable pub limits_under : Capacity → RuntimeLimits
unfolding hours
limits_under e = record {
  watches = e.max_watches;
  destinations = e.max_destinations;
  pending = e.max_pending;
  bytes = e.max_store_bytes;
  retention = hours e.retention_days;
}

unfoldable pub limits : Capacity → RuntimeLimits
unfolding effective limits_under
limits c = limits_under (effective c)
