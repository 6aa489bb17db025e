-- ===== src/Logs/History.antt =====
-- What reaches a window over its life, and what Assess says of its summaries.
use ding.Base.{ℕ, suc, ◌/◌, ◌≡◌, true, String, List, [], ◌∷◌, All, ok, err, arith}
use ding.Base.Ensures.{Ensures, Ensures-if, ensured}
use ding.Logs.Window.{
  second, Classification, effective, Quotients, Config, Window, is_refused, fresh_window,
  new_window, gap, reset, add_from, drop,
}
use ding.Logs.Summary.{
  Summary, snapshot, assess, recomputed, is_current, all_in_range, counts_agree, channels_agree,
}
use ding.Logs.Counts.{
  Fair, cleared-Fair, Possible, snapshot-agrees, gap-Fair, add_from-Fair, drop-Fair,
}

pub data Input : Type 0 where
  added : ℕ → Classification → String → Input
  lost : ℕ → Input
  interrupted : ℕ → Input
  restarted : ℕ → Input

-- The parser and the collector call a record invalid only without a level.
abbrev pub IsParsed : Input → Type 0
IsParsed (added at c channel) = Possible (effective c)
IsParsed _ = Unit

module _ {F : Type 0} where
  unfoldable pub receive : Input → Window F → Window F
  receive (added at c channel) w = add_from w at c channel
  receive (lost at) w = drop w at
  receive (interrupted at) w = gap w at
  receive (restarted at) w = reset w at

  unfoldable pub receive_all : List Input → Window F → Window F
  unfolding receive
  receive_all [] w = w
  receive_all (i ∷ inputs) w = receive_all inputs (receive i w)

  receive-Fair :
      (i : Input) (w : Window F) → IsParsed i → All Fair w.buckets → All Fair (receive i w).buckets
  unfolding receive reset
  receive-Fair (added at c channel) w k a = add_from-Fair w at c channel k a
  receive-Fair (lost at) w k a = drop-Fair w at a
  receive-Fair (interrupted at) w k a = gap-Fair w at a
  receive-Fair (restarted at) w k a = cleared-Fair _

  receive_all-Fair :
      (inputs : List Input) (w : Window F)
      → All IsParsed inputs
      → All Fair w.buckets
      → All Fair (receive_all inputs w).buckets
  unfolding receive_all
  receive_all-Fair [] w k a = a
  receive_all-Fair (i ∷ inputs) w k a =
      receive_all-Fair inputs (receive i w) k.1 (receive-Fair i w k.0 a)

module _ {F : Type 0} (q : Quotients F) where
  new_window-Fair : (c : Config F) (at : ℕ) → Ensures (λ w. All Fair w.buckets) (new_window q c at)
  unfolding new_window fresh_window
  new_window-Fair c at =
      Ensures-if {A = Window F} (λ w. All Fair w.buckets) (is_refused q c)
        (err
          "log windows require 1–3600 whole seconds, positive minimum records, and coverage between 0 and 1")
        (ok (fresh_window c at)) (λ _. tt) (λ _. cleared-Fair (suc (c.window / second)))

  assess_ok :
      (s : Summary F) (c : Config F) (started now : ℕ)
      → is_current q s c now ≡ true
      → all_in_range q s ≡ true
      → (counts_agree q s ≡ true) × (channels_agree q s ≡ true)
      → assess q s c started now ≡ ok (recomputed q s c started)
  unfolding assess
  assess_ok s c started now cur range agree = ground (arith, cur, range, agree.0, agree.1)

  -- Whatever records, drops, gaps and resets reach a window, if no record is called invalid and
  -- has a level too, Assess accepts a snapshot of it that is current and whose counts are
  -- within 53 bits: its counters are consistent, over levels, invalid records and channels.
  pub assess-snapshot :
      (c : Config F) (start : ℕ) (w : Window F) (inputs : List Input) (at now : ℕ)
      → new_window q c start ≡ ok w
      → All IsParsed inputs
      → is_current q (snapshot q (receive_all inputs w) at) c now ≡ true
      → all_in_range q (snapshot q (receive_all inputs w) at) ≡ true
      → assess q (snapshot q (receive_all inputs w) at) c start now
        ≡ ok (recomputed q (snapshot q (receive_all inputs w) at) c start)
  assess-snapshot c start w inputs at now e k cur range =
      assess_ok (snapshot q (receive_all inputs w) at) c start now cur range (
        snapshot-agrees q (receive_all inputs w) at (
          receive_all-Fair inputs w k
            (ensured (λ w. All Fair w.buckets) (new_window q c start) (new_window-Fair c start) e)))
