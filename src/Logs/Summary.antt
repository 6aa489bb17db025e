-- ===== src/Logs/Summary.antt =====
-- internal/logs/window.go `Snapshot` and summary.go `Assess`.
use ding.Base.{
  ℕ, ◌+◌, ◌*◌, ◌/◌, ◌^◌, ◌-◌, Bool, true, false, not, ◌&&◌, ◌||◌, String, List, [], ◌∷◌, Option,
  none, some, ltb, leb, ◌==◌, if◌then◌else◌, Result, ok, err,
}
use ding.Logs.Window.{second, Quotients, Config, Counts, Bucket, Window, truncate}

pub record Tally : Type 0 where
  pub total : ℕ
  pub unclassified : ℕ
  pub warnings : ℕ
  pub errors : ℕ
  pub fatals : ℕ
  pub invalid : ℕ
  pub stdout : ℕ
  pub stderr : ℕ
  pub other : ℕ
  pub dropped : ℕ

pub record Summary (F : Type 0) : Type 0 where
  pub version : ℕ
  pub window_start : ℕ
  pub window_end : ℕ
  pub window_seconds : ℕ
  pub total : ℕ
  pub classified : ℕ
  pub unclassified : ℕ
  pub warnings : ℕ
  pub errors : ℕ
  pub fatals : ℕ
  pub invalid : ℕ
  pub stdout : ℕ
  pub stderr : ℕ
  pub other : ℕ
  pub dropped : ℕ
  pub coverage : F
  pub warning_ratio : Option F
  pub error_ratio : Option F
  pub complete : Bool
  pub ready : Bool
  pub reason : String

unfoldable pub sum_counts : Counts → ℕ
sum_counts c =
    c.unclassified_count + c.trace_count + c.debug_count + c.info_count + c.warning_count
    + c.error_count + c.fatal_count

unfoldable pub tallied : Bucket → Tally → Tally
unfolding sum_counts
tallied b t = record {
  total = sum_counts b.counts + t.total;
  unclassified = b.counts.unclassified_count + t.unclassified;
  warnings = b.counts.warning_count + t.warnings;
  errors = b.counts.error_count + t.errors;
  fatals = b.counts.fatal_count + t.fatals;
  invalid = b.invalid + t.invalid;
  stdout = b.stdout + t.stdout;
  stderr = b.stderr + t.stderr;
  other = b.other + t.other;
  dropped = b.dropped + t.dropped;
}

abbrev pub no_tally : Tally
no_tally = record {
  total = 0;
  unclassified = 0;
  warnings = 0;
  errors = 0;
  fatals = 0;
  invalid = 0;
  stdout = 0;
  stderr = 0;
  other = 0;
  dropped = 0;
}

-- The buckets of the seconds from `start` up to `end`.
unfoldable pub tally : ℕ → ℕ → List Bucket → Tally
unfolding tallied
tally start end [] = no_tally
tally start end (b ∷ bs) =
    let t = tally start end bs in
    if ltb b.at_second start || leb end b.at_second then t else tallied b t

module _ {F : Type 0} (q : Quotients F) where
  -- Enough records, and enough of them classified.
  unfoldable pub sufficiency : Config F → Summary F → Summary F
  sufficiency c s =
      if ltb s.total c.min_events
      then record s { reason = "insufficient_records" }
      else if q.less s.coverage c.min_coverage
      then record s { reason = "insufficient_coverage" }
      else record s {
        ready = true;
        reason = "ready";
        warning_ratio = some (q.quotient s.warnings s.total);
        error_ratio = some (q.quotient (s.errors + s.fatals) s.total);
      }

  coverage_of : ℕ → ℕ → F
  coverage_of classified total = if ltb 0 total then q.quotient classified total else q.nought

  unfoldable pub summary_of : Window F → ℕ → Tally → Summary F
  unfolding coverage_of
  summary_of w end t = record {
    version = 1;
    window_start = end - w.config.window;
    window_end = end;
    window_seconds = w.config.window / second;
    total = t.total;
    classified = t.total - t.unclassified;
    unclassified = t.unclassified;
    warnings = t.warnings;
    errors = t.errors;
    fatals = t.fatals;
    invalid = t.invalid;
    stdout = t.stdout;
    stderr = t.stderr;
    other = t.other;
    dropped = t.dropped;
    coverage = coverage_of (t.total - t.unclassified) t.total;
    warning_ratio = none;
    error_ratio = none;
    complete =
        not (ltb end (w.started + w.config.window))
        && (not (ltb end w.gap_until) && (t.invalid == 0));
    ready = false;
    reason = "ready";
  }

  unfoldable pub judged : Window F → Summary F → Summary F
  unfolding sufficiency
  judged w s =
      if ltb s.window_end w.gap_until
      then record s { reason = "collection_gap" }
      else if ltb 0 s.invalid
      then record s { reason = "invalid_records" }
      else if ltb s.window_end (w.started + w.config.window)
      then record s { reason = "warming_up" }
      else sufficiency w.config s

  unfoldable pub snapshot : Window F → ℕ → Summary F
  unfolding tally summary_of judged
  snapshot w at =
      let end = truncate at in
      judged w
        (summary_of w end (tally ((end - w.config.window) / second) (end / second) w.buckets))

  abbrev pub in_range : ℕ → Bool
  in_range n = ltb n (2 ^ 53)

  unfoldable pub all_in_range : Summary F → Bool
  all_in_range s =
      (in_range s.total
        && (in_range s.classified && (in_range s.unclassified && in_range s.warnings)))
      && ((in_range s.errors && (in_range s.fatals && (in_range s.invalid && in_range s.stdout)))
          && (in_range s.stderr && (in_range s.other && in_range s.dropped)))

  unfoldable pub is_current : Summary F → Config F → ℕ → Bool
  is_current s c now =
      ((s.version == 1) && (s.window_seconds == c.window / second))
      && (((s.window_start + c.window == s.window_end) && (s.window_end == truncate s.window_end))
          && (leb s.window_end (now + second) && ltb now (s.window_end + 3 * second)))

  unfoldable pub counts_agree : Summary F → Bool
  counts_agree s =
      (s.classified + s.unclassified == s.total)
      && (leb (s.warnings + s.errors + s.fatals) s.classified && leb s.invalid s.unclassified)

  abbrev pub channels : Summary F → ℕ
  channels s = s.stdout + s.stderr + s.other

  unfoldable pub channels_agree : Summary F → Bool
  channels_agree s = (channels s == 0) || (channels s == s.total)

  unfoldable pub recomputed : Summary F → Config F → ℕ → Summary F
  unfolding sufficiency coverage_of
  recomputed s c started =
      let r = record s {
        other = if channels s == 0 then s.total else s.other;
        warning_ratio = none;
        error_ratio = none;
        ready = false;
        coverage = coverage_of s.classified s.total;
      } in
      if ltb 0 r.dropped
      then record r { complete = false; reason = "collection_gap" }
      else if ltb 0 r.invalid
      then record r { complete = false; reason = "invalid_records" }
      else if ltb r.window_start started
      then record r { complete = false; reason = "warming_up" }
      else if not r.complete
      then record r { reason = "collection_gap" }
      else sufficiency c r

  unfoldable pub assess : Summary F → Config F → ℕ → ℕ → Result (Summary F)
  unfolding is_current all_in_range counts_agree channels_agree recomputed
  assess s c started now =
      if not (is_current s c now)
      then err "invalid or stale log summary window"
      else if not (all_in_range s)
      then err "invalid log summary count"
      else if not (counts_agree s)
      then err "inconsistent log summary counts"
      else if not (channels_agree s)
      then err "inconsistent channel counts"
      else ok (recomputed s c started)
