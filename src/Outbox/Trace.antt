-- ===== src/Outbox/Trace.antt =====
-- Histories of calls on the outbox whose claims are in the order of time.
use ding.Base.{ℕ, ◌≤◌, String, Bool, List, [], ◌∷◌}
use ding.Outbox.Rows.{Store}
use ding.Outbox.Manual.{Call, step}
use ding.Outbox.Exclusion.{Safe, clock, step-Safe}

unfoldable pub run : (String → String → Bool) → List Call → Store → Store
run less [] st = st
run less (c ∷ calls) st = run less calls (step less c st)

-- The time of the last claim.
unfoldable pub last_clock : ℕ → List Call → ℕ
last_clock t [] = t
last_clock t (c ∷ calls) = last_clock (clock t c) calls

abbrev pub InOrder : ℕ → List Call → Type 0
InOrder t [] = Unit
InOrder t (c ∷ calls) = (t ≤ clock t c) × InOrder (clock t c) calls

-- Whatever calls are made on the outbox in any interleaving, enqueuing, claims, acknowledgments,
-- cancellations and manual retries, if claims are in the order of time: the ids of the table stay
-- ascending and below the next one, and for a watch, a destination and its revision at most one
-- row is leased beyond the time of the last claim.
pub run-Safe :
    (less : String → String → Bool) (t : ℕ) (calls : List Call) (st : Store)
    → InOrder t calls
    → Safe t st
    → Safe (last_clock t calls) (run less calls st)
unfolding run last_clock
run-Safe less t [] st o s = s
run-Safe less t (c ∷ calls) st o s =
    run-Safe less (clock t c) calls (step less c st) o.1 (step-Safe less t c st o.0 s)
