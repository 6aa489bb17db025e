-- ===== src/Delivery/Backoff.antt =====
-- internal/delivery/http.go `Backoff`: the doubling delay between attempts.
use native.Mathlib.Nat.{mul_assoc, mul_comm, pow-suc, min-eq_left}
use ding.Base.{
  ℕ, zero, suc, ◌-◌, ◌*◌, ◌^◌, ◌≤◌, ◌<◌, ◌≡◌, refl, ltb, if◌then◌else◌, arith, min, ◌==◌,
  Bool-cases, sym, ap, ◌∙◌, inl, inr, ltb-false→le,
}
use ding.Delivery.Http.{second}

abbrev pub hour : ℕ
hour = 3600 * second

-- The loop of `Backoff`, on the rounds that are left.
doubled : ℕ → ℕ → ℕ
doubled zero delay = delay
doubled (suc rounds) delay =
    let rest = doubled rounds (delay * 2) in if ltb delay hour then rest else delay

-- A delay of 0 stands for every initial delay that is not positive.
unfoldable pub backoff : ℕ → ℕ → ℕ
unfolding doubled
backoff initial attempt =
    let delay = doubled (attempt - 1) (if initial == 0 then second else initial) in
    if ltb hour delay then hour else delay

double_shift : (delay rounds : ℕ) → delay * 2 * 2 ^ rounds ≡ delay * 2 ^ suc rounds
double_shift delay rounds =
    rw (pow-suc 2 rounds, mul_assoc delay 2 (2 ^ rounds), mul_comm 2 (2 ^ rounds)) refl

power_pos : (k : ℕ) → 1 ≤ 2 ^ k
power_pos zero = omega arith
power_pos (suc k) = rw (pow-suc 2 k) (omega (arith, power_pos k))

hour_scaled : (delay k : ℕ) → hour ≤ delay → hour ≤ delay * 2 ^ k
hour_scaled delay zero h = omega (arith, h)
hour_scaled delay (suc k) h =
    rw (sym (double_shift delay k)) (hour_scaled (delay * 2) k (omega arith))

past : (delay rounds : ℕ) → hour ≤ delay → min hour delay ≡ min hour (delay * 2 ^ suc rounds)
past delay rounds h = min-eq_left h ∙ sym (min-eq_left (hour_scaled delay (suc rounds) h))

doubled-min : (rounds delay : ℕ) → min hour (doubled rounds delay) ≡ min hour (delay * 2 ^ rounds)
unfolding doubled
doubled-min zero delay = ap (min hour) (omega arith)
doubled-min (suc rounds) delay = elim (Bool-cases (ltb delay hour)) [
  | inl p ↦ rw p (doubled-min rounds (delay * 2) ∙ ap (min hour) (double_shift delay rounds))
  | inr p ↦ rw p (past delay rounds (ltb-false→le delay hour p))
]

-- For a positive initial delay the loop of Backoff gives the initial delay times two to the
-- number of earlier attempts, and at most an hour.
pub backoff-eq-min :
    (initial attempt : ℕ)
    → 0 < initial
    → backoff initial attempt ≡ min hour (initial * 2 ^ (attempt - 1))
unfolding backoff
backoff-eq-min initial attempt h = ground (arith, doubled-min (attempt - 1) initial)
