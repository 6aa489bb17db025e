-- ===== src/Plan/Durations.antt =====
-- internal/plan/compile.go: durations of a declaration, their bounds and their normal form.
use Prim.Native.String.{◌++◌ as append}
use ding.Base.{
  ℕ, String, Bool, false, ◌||◌, ◌&&◌, Option, none, some, str_eq, ltb, leb, Result, ok, err,
  if◌then◌else◌,
}
use ding.Base.Int.{ℤ, pos, negsuc}

-- time.ParseDuration, without the durations below zero, which every check here refuses;
-- Duration.String; and the quoting of `%q`.
pub record Durations : Type 0 where
  pub parse : String → Option ℕ
  pub print : ℕ → String
  pub quote : String → String

abbrev pub millisecond : ℕ
millisecond = 1000000

abbrev pub second : ℕ
second = 1000000000

abbrev pub minute : ℕ
minute = 60000000000

abbrev pub hour_long : ℕ
hour_long = 3600000000000

abbrev pub day_long : ℕ
day_long = 86400000000000

-- A check gives an error or nothing.
abbrev pub Check : Type 0
Check = Result {0} Unit

-- What Go puts for an empty text and for a zero.
unfoldable pub or_text : String → String → String
or_text default s = if str_eq s "" then default else s

unfoldable pub or_int : ℕ → ℤ → ℤ
or_int default (pos n) = if leb n 0 then pos default else pos n
or_int default (negsuc n) = negsuc n

unfoldable pub within : ℕ → ℕ → ℤ → Bool
within low high (pos n) = leb low n && leb n high
within low high (negsuc n) = false

module _ (durations : Durations) where
  unfoldable pub out_of_range : String → ℕ → ℕ → String
  out_of_range s low high = append "duration " (
      append (durations.quote s) (
        append " must be between "
          (append (durations.print low) (append " and " (durations.print high)))))

  -- `duration`.
  unfoldable pub duration : String → ℕ → ℕ → Result ℕ
  unfolding out_of_range
  duration s low high = elim (durations.parse s) [
    | none ↦ err (out_of_range s low high)
    | some d ↦ if ltb d low || ltb high d then err (out_of_range s low high) else ok d
  ]

  -- A duration whose error is dropped.
  unfoldable pub nanoseconds : String → ℕ
  nanoseconds s = elim (durations.parse s) [ none ↦ 0 | some d ↦ d ]

  -- `normalizeDurations`, on one text.
  unfoldable pub normal_duration : String → String
  unfolding nanoseconds
  normal_duration s = if str_eq s "" then "" else durations.print (nanoseconds s)
