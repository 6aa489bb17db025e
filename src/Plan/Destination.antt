-- ===== src/Plan/Destination.antt =====
-- internal/plan/compile.go: `CompileDestination`, with the header and the references of secrets.
use ding.Base.{
  ◌*◌, String, Bool, true, false, ◌||◌, not, List, [], ◌∷◌, Option, none, some, str_eq, ltb, Result,
  ok, err, ◌>>=◌, if◌then◌else◌,
}
use ding.Base.Int.{ℤ}
use ding.Condition.Routing.{is_empty}
use ding.Plan.Names.{is_identifier, is_env_name, breaks_line}
use ding.Plan.Durations.{
  Durations, Check, second, millisecond, hour_long, day_long, or_text, or_int, within, duration,
  normal_duration,
}
use Prim.Native.String.{len, ◌++◌ as append}

pub record Metadata : Type 0 where
  pub id : String
  pub name : String

abbrev pub api_version : String
api_version = "ding.ing/v1alpha1"

-- `SecretRef` has one field, the name of the environment variable.
pub record DestinationSpec : Type 0 where
  pub kind : String
  pub url_ref : Option String
  pub headers : List (String × String)
  pub max_attempts : ℤ
  pub max_age : String
  pub initial_backoff : String

pub record Destination : Type 0 where
  pub api_version : String
  pub kind : String
  pub metadata : Metadata
  pub spec : DestinationSpec

pub record CompiledDestination : Type 0 where
  pub definition : Destination
  pub revision : String

unfoldable pub header : String → String → Metadata → String → Check
unfolding is_identifier
header version kind m want =
    if not (str_eq version api_version) || not (str_eq kind want)
    then err (append "expected " (append api_version (append " " want)))
    else if not (is_identifier m.id)
    then err "metadata.id must be a stable 1..128 character identifier"
    else if ltb 256 (len m.name)
    then err "metadata.name exceeds 256 bytes"
    else ok tt

unfoldable pub valid_ref : Option String → Bool
unfolding is_env_name
valid_ref none = false
valid_ref (some env) = is_env_name env

unfoldable pub refs : List (String × String) → Check
unfolding valid_ref breaks_line
refs [] = ok tt
refs ((key, env) ∷ rest) =
    let others = refs rest in
    if str_eq key "" || breaks_line key || not (valid_ref (some env))
    then err "invalid secret reference"
    else others

abbrev pub is_local : String → Bool
is_local kind = str_eq kind "console" || str_eq kind "desktop"

abbrev pub is_remote : String → Bool
is_remote kind = str_eq kind "webhook" || str_eq kind "slack" || str_eq kind "discord"

abbrev pub is_some : Option String → Bool
is_some none = false
is_some (some x) = true

unfoldable pub with_defaults : DestinationSpec → DestinationSpec
unfolding or_int or_text
with_defaults s = record s {
  max_attempts = or_int 8 s.max_attempts;
  max_age = or_text "24h" s.max_age;
  initial_backoff = or_text "1s" s.initial_backoff;
}

module _ (durations : Durations) where
  -- The switch on the type.
  unfoldable pub settings_checked : DestinationSpec → Check
  unfolding valid_ref
  settings_checked s =
      if is_local s.kind
      then (if is_some s.url_ref || not (is_empty s.headers)
          then err "local destinations take no HTTP settings"
          else ok tt)
      else if is_remote s.kind
      then (if not (valid_ref s.url_ref) then err "HTTP destinations require urlRef.env" else ok tt)
      else err (append "unsupported destination type " (durations.quote s.kind))

  unfoldable pub retries_checked : DestinationSpec → Check
  unfolding within duration
  retries_checked s =
      if not (within 1 100 s.max_attempts)
      then err "invalid retry attempts"
      else duration durations s.max_age second (7 * day_long) >>= (λ age.
        duration durations s.initial_backoff millisecond hour_long >>= (λ backoff. ok tt))

  unfoldable pub normal_retries : DestinationSpec → DestinationSpec
  unfolding normal_duration
  normal_retries s = record s {
    max_age = normal_duration durations s.max_age;
    initial_backoff = normal_duration durations s.initial_backoff;
  }

module _ (durations : Durations) (digest : Destination → String) where
  unfoldable pub revised : Destination → CompiledDestination
  revised d = record { definition = d; revision = digest d }

  -- `CompileDestination`.
  unfoldable pub compile_destination : Destination → Result CompiledDestination
  unfolding header settings_checked refs with_defaults retries_checked normal_retries revised
  compile_destination d = do
    headed ← header d.api_version d.kind d.metadata "Destination"
    settings ← settings_checked durations d.spec
    secrets ← refs d.spec.headers
    retries ← retries_checked durations (with_defaults d.spec)
    ok (revised (record d { spec = normal_retries durations (with_defaults d.spec) }))
