-- ===== src/Hosting/Examples.antt =====
-- A capacity with nothing set.
use ding.Base.{◌≡◌, refl}
use ding.Base.Int.{pos}
use ding.Hosting.Capacity.{Capacity, effective, validate, limits}
use ding.Hosting.Limits.{LimitsWithin, validate-LimitsWithin, effective-same}

abbrev unset : Capacity
unset = record {
  api_rate = pos 0;
  api_burst = pos 0;
  outbound_checks = pos 0;
  outbound_deliveries = pos 0;
  outbound_bytes = pos 0;
  max_watches = pos 0;
  max_destinations = pos 0;
  max_pending = pos 0;
  max_store_bytes = pos 0;
  retention_days = pos 0;
  min_poll_seconds = pos 0;
  max_body_bytes = pos 0;
  max_entities = pos 0;
  max_samples = pos 0;
  max_outputs = pos 0;
}

validate-LimitsWithin_example : LimitsWithin (limits unset)
unfolding validate
validate-LimitsWithin_example = validate-LimitsWithin unset refl

effective-same_example :
    (validate (effective unset) ≡ validate unset) × (limits (effective unset) ≡ limits unset)
effective-same_example = effective-same unset
