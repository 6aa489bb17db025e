-- ===== src/Plan/Names.antt =====
-- internal/plan/compile.go: the regular expressions of identifiers and of names, character by
-- character.
use Prim.Native.Nat.{ℕ}
use Prim.Native.Char.{Char, code}
use Prim.Native.String.{String, [], ◌∷◌, len}
use mathlib.Core.Bool.{Bool, true, false, ◌&&◌, ◌||◌, not}
use ding.Base.Tests.{leb, ◌==◌}

abbrev pub between : ℕ → ℕ → Char → Bool
between low high c = leb low (code c) && leb (code c) high

-- `[a-zA-Z]`, `[0-9]`.
abbrev pub is_letter : Char → Bool
is_letter c = between 65 90 c || between 97 122 c

abbrev pub is_digit : Char → Bool
is_digit c = between 48 57 c

unfoldable pub every_char : (Char → Bool) → String → Bool
every_char p [] = true
every_char p (c ∷ s) = p c && every_char p s

-- A first character and the others.
unfoldable pub shaped : (Char → Bool) → (Char → Bool) → String → Bool
unfolding every_char
shaped p q [] = false
shaped p q (c ∷ s) = p c && every_char q s

-- `.`, `_`, `-`.
abbrev pub is_joint : Char → Bool
is_joint c = code c == 46 || code c == 95 || code c == 45

-- `identifier`: all of its characters are of one byte.
unfoldable pub is_identifier : String → Bool
unfolding shaped
is_identifier s =
    shaped (λ c. is_letter c || is_digit c) (λ c. is_letter c || is_digit c || is_joint c) s
    && leb (len s) 128

-- `envName`.
unfoldable pub is_env_name : String → Bool
unfolding shaped
is_env_name s =
    shaped (λ c. is_letter c || code c == 95) (λ c. is_letter c || is_digit c || code c == 95) s

-- strings.ContainsAny(s, "\r\n").
unfoldable pub breaks_line : String → Bool
unfolding every_char
breaks_line s = not (every_char (λ c. not (code c == 13 || code c == 10)) s)

-- `fieldName`.
unfoldable pub is_field_name : String → Bool
unfolding shaped
is_field_name s =
    shaped (λ c. is_letter c || code c == 95) (λ c. is_letter c || is_digit c || is_joint c) s
    && leb (len s) 128
