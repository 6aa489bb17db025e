-- ===== src/Plan/Binary.antt =====
-- Durations in binary after a letter, for the examples: an instance of the parameter on which every
-- number is read back.
use Prim.Native.Nat.{ℕ, zero, suc, ◌+◌, ◌*◌, ◌/◌, ◌%◌, ◌≤◌}
use Prim.Native.Char.{Char, code}
use Prim.Native.String.{String, [], ◌∷◌}
use Prim.Native.String.compare
use mathlib.Core.Path.{◌≡◌, refl, ap}
use mathlib.Core.Bool.{false}
use mathlib.Core.Option.{Option, none, some}
use native.Mathlib.Omega.{arith}
use text.Mathlib.Text.{is_eq}
use ding.Base.Tests.{◌==◌}
use ding.Base.{str_eq, if◌then◌else◌}
use ding.Plan.Durations.{Durations, second, day_long}

abbrev digit : ℕ → Char
digit zero = "0"
digit (suc n) = "1"

abbrev digit_value : Char → ℕ
digit_value c = if code c == 48 then 0 else 1

unfoldable pub binary : ℕ → ℕ → String
binary zero n = []
binary (suc fuel) zero = []
binary (suc fuel) (suc n) = digit (suc n % 2) ∷ binary fuel (suc n / 2)

unfoldable binary_value : String → ℕ
binary_value [] = 0
binary_value (c ∷ s) = digit_value c + 2 * binary_value s

digit_back : (n : ℕ) → n ≤ 1 → digit_value (digit n) ≡ n
digit_back zero h = refl
digit_back (suc zero) h = refl
digit_back (suc (suc n)) h = absurd (omega (arith, h))

binary_back : (fuel n : ℕ) → n ≤ fuel → binary_value (binary fuel n) ≡ n
unfolding binary binary_value
binary_back zero n h = omega (arith, h)
binary_back (suc fuel) zero h = refl
binary_back (suc fuel) (suc n) h =
    let first = digit_back (suc n % 2) (omega arith) in
    let rest = binary_back fuel (suc n / 2) (omega (arith, h)) in omega (arith, first, rest)

abbrev known : String → Option ℕ
known s =
    if str_eq s "24h"
    then some day_long
    else if str_eq s "5s"
    then some (5 * second)
    else if str_eq s "1s"
    then some second
    else none

unfoldable pub read_duration : String → Option ℕ
unfolding binary_value
read_duration [] = none
read_duration (c ∷ s) = if code c == 98 then some (binary_value s) else known (c ∷ s)

unfoldable pub durations : Durations
unfolding binary read_duration
durations = record { parse = read_duration; print = λ d. "b" ∷ binary d d; quote = λ s. s }

pub reads_back : (d : ℕ) → durations.parse (durations.print d) ≡ some d
unfolding read_duration durations
reads_back d = ap some (binary_back d d (omega arith))

pub prints : (d : ℕ) → str_eq (durations.print d) "" ≡ false
unfolding durations
prints d = ap is_eq (compare.cons-nil "b" (binary d d))
