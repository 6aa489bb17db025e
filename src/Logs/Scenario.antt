-- ===== src/Logs/Scenario.antt =====
-- A window of two seconds with an error and a line of information, and its summary.
use ding.Base.{ℕ, ◌+◌, ◌*◌, ◌/◌, ◌≡◌, refl, false, List, [], ◌∷◌, some, ltb, leb, ok}
use ding.Logs.Window.{
  effective, second, error, info, Quotients, Config, Window, new_window, fresh_window, add_from,
}
use ding.Logs.Summary.{snapshot, assess, recomputed, is_current, all_in_range}
use ding.Logs.History.{Input, added, receive_all, assess-snapshot}

-- Shares in percent.
abbrev percent : Quotients ℕ
percent = record {
  nought = 0;
  is_share = λ n. leb n 100;
  quotient = λ a b. a * 100 / b;
  less = ltb;
}

abbrev two_seconds : Config ℕ
two_seconds = record { window = 2 * second; min_events = 1; min_coverage = 50 }

unfoldable opened : Window ℕ
unfolding fresh_window
opened = fresh_window two_seconds (100 * second)

abbrev lines : List Input
lines =
    added (101 * second + 5) (record { level = some error; invalid = false; blank = false })
      "stderr"
    ∷ added (102 * second) (record { level = some info; invalid = false; blank = false }) "stdout"
    ∷ []

assess-snapshot_example :
    assess percent
      (snapshot percent (receive_all lines opened) (103 * second))
      two_seconds
      (100 * second)
      (104 * second)
    ≡ ok (
        recomputed percent
          (snapshot percent (receive_all lines opened) (103 * second))
          two_seconds
          (100 * second))
unfolding opened new_window receive_all snapshot is_current all_in_range effective add_from
assess-snapshot_example =
    assess-snapshot percent two_seconds (100 * second) opened lines (103 * second) (104 * second)
      refl (refl, (refl, tt)) refl refl
