-- ===== src/Hosting/Limits.antt =====
-- What a capacity that Validate accepts gives the runtime.
use ding.Base.{ℕ, ◌*◌, ◌^◌, ◌≤◌, ◌≡◌, refl, ap, false, none, arith}
use ding.Base.Int.{ℤ, pos, negsuc}
use ding.Hosting.Capacity.{
  Capacity, or_default, effective, outside, bad_store, check, validate, RuntimeLimits, hours,
  limits_under, limits,
}

-- A whole number from `low` to `high`.
abbrev pub Within : ℕ → ℕ → ℤ → Type 0
Within low high (pos n) = (low ≤ n) × (n ≤ high)
Within low high (negsuc n) = ⊥

outside-Within : (low high : ℕ) (z : ℤ) → outside low high z ≡ false → Within low high z
unfolding outside
outside-Within low high (pos n) h = (ground (arith, h), ground (arith, h))
outside-Within low high (negsuc n) h = ground (arith, h)

hours-Within : (z : ℤ) → Within 1 30 z → Within 24 720 (hours z)
unfolding hours
hours-Within (pos n) h = (omega (arith, h.0), omega (arith, h.1))
hours-Within (negsuc n) h = h

check_store : (c : Capacity) → check c ≡ none → bad_store c ≡ false
unfolding check
check_store c h = ground (arith, h)

pub record LimitsWithin (l : RuntimeLimits) : Type 0 where
  pub watches : Within 1 10000 l.watches
  pub destinations : Within 1 1000 l.destinations
  pub pending : Within 1 100000 l.pending
  pub bytes : Within (2 ^ 20) (2 ^ 40) l.bytes
  pub retention : Within 24 720 l.retention

-- For a capacity that Validate accepts, defaults filled in, the limits of the runtime are in
-- range: 1 to 10000 watches, 1 to 1000 destinations, 1 to 100000 pending intents, 1 MiB to 1 TiB
-- of storage and 24 to 720 hours of retention.
pub validate-LimitsWithin : (c : Capacity) → validate c ≡ none → LimitsWithin (limits c)
unfolding validate limits bad_store
validate-LimitsWithin c h =
    let e = effective c in
    let b = check_store e h in
    record {
      watches = outside-Within 1 10000 e.max_watches (ground (arith, b));
      destinations = outside-Within 1 1000 e.max_destinations (ground (arith, b));
      pending = outside-Within 1 100000 e.max_pending (ground (arith, b));
      bytes = outside-Within (2 ^ 20) (2 ^ 40) e.max_store_bytes (ground (arith, b));
      retention =
          hours-Within e.retention_days (outside-Within 1 30 e.retention_days (ground (arith, b)));
    }

or_default_idem : (z : ℤ) (d : ℕ) → 1 ≤ d → or_default (or_default z d) d ≡ or_default z d
unfolding or_default
or_default_idem (pos n) d h = ground (arith, h)
or_default_idem (negsuc n) d h = refl

-- The defaults are set once.
effective_idem : (c : Capacity) → effective (effective c) ≡ effective c
unfolding effective
effective_idem c =
    rw
      (
        or_default_idem c.api_rate 20 (omega arith),
        or_default_idem c.api_burst 100 (omega arith),
        or_default_idem c.max_watches 1000 (omega arith),
        or_default_idem c.max_destinations 100 (omega arith),
        or_default_idem c.max_pending 10000 (omega arith),
        or_default_idem c.max_store_bytes (128 * 2 ^ 20) (omega arith),
        or_default_idem c.retention_days 7 (omega arith),
        or_default_idem c.min_poll_seconds 1 (omega arith),
        or_default_idem c.max_body_bytes (2 ^ 20) (omega arith),
        or_default_idem c.max_entities 1000 (omega arith),
        or_default_idem c.max_samples 10000 (omega arith),
        or_default_idem c.max_outputs 100 (omega arith),
      )
      refl

-- Filling in the defaults of a capacity changes neither the verdict of Validate nor the limits of
-- the runtime.
pub effective-same :
    (c : Capacity) → (validate (effective c) ≡ validate c) × (limits (effective c) ≡ limits c)
unfolding validate limits
effective-same c = (ap check (effective_idem c), ap limits_under (effective_idem c))
