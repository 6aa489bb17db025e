-- ===== src/Logs/Window.antt =====
-- internal/logs/window.go: the ring of one-second buckets. Times are nanoseconds of the Unix epoch,
-- from its start on, and 0 stands for Go's zero time.
use ding.Base.{
  ℕ, zero, suc, ◌+◌, ◌*◌, ◌/◌, ◌%◌, ◌^◌, Bool, true, not, ◌||◌, String, List, [], ◌∷◌, Option, none,
  some, length, ltb, ◌==◌, str_eq, if◌then◌else◌, Result, ok, err,
}

abbrev pub second : ℕ
second = 1_000_000_000

pub data Level : Type 0 where
  unclassified trace debug info warning error fatal : Level

-- A level outside the range is `none`.
pub record Classification : Type 0 where
  pub level : Option Level
  pub invalid : Bool
  pub blank : Bool

-- float64 as far as a window uses it: whether a coverage is a number from 0 to 1, the quotient of
-- two counts, and the order.
pub record Quotients (F : Type 0) : Type 0 where
  pub nought : F
  pub is_share : F → Bool
  pub quotient : ℕ → ℕ → F
  pub less : F → F → Bool

pub record Config (F : Type 0) : Type 0 where
  pub window : ℕ
  pub min_events : ℕ
  pub min_coverage : F

pub record Counts : Type 0 where
  pub unclassified_count : ℕ
  pub trace_count : ℕ
  pub debug_count : ℕ
  pub info_count : ℕ
  pub warning_count : ℕ
  pub error_count : ℕ
  pub fatal_count : ℕ

pub record Bucket : Type 0 where
  pub at_second : ℕ
  pub counts : Counts
  pub invalid : ℕ
  pub stdout : ℕ
  pub stderr : ℕ
  pub other : ℕ
  pub dropped : ℕ

pub record Window (F : Type 0) : Type 0 where
  pub config : Config F
  pub started : ℕ
  pub last : ℕ
  pub gap_until : ℕ
  pub buckets : List Bucket

abbrev pub no_counts : Counts
no_counts = record {
  unclassified_count = 0;
  trace_count = 0;
  debug_count = 0;
  info_count = 0;
  warning_count = 0;
  error_count = 0;
  fatal_count = 0;
}

abbrev pub empty_bucket : ℕ → Bucket
empty_bucket s = record {
  at_second = s;
  counts = no_counts;
  invalid = 0;
  stdout = 0;
  stderr = 0;
  other = 0;
  dropped = 0;
}

unfoldable pub cleared : ℕ → List Bucket
cleared zero = []
cleared (suc n) = empty_bucket 0 ∷ cleared n

unfoldable pub of_level : Level → Counts → ℕ
of_level unclassified c = c.unclassified_count
of_level trace c = c.trace_count
of_level debug c = c.debug_count
of_level info c = c.info_count
of_level warning c = c.warning_count
of_level error c = c.error_count
of_level fatal c = c.fatal_count

unfoldable pub counted : Level → Counts → Counts
counted unclassified c = record c { unclassified_count = suc c.unclassified_count }
counted trace c = record c { trace_count = suc c.trace_count }
counted debug c = record c { debug_count = suc c.debug_count }
counted info c = record c { info_count = suc c.info_count }
counted warning c = record c { warning_count = suc c.warning_count }
counted error c = record c { error_count = suc c.error_count }
counted fatal c = record c { fatal_count = suc c.fatal_count }

abbrev pub truncate : ℕ → ℕ
truncate at = at / second * second

unfoldable pub is_refused : {F : Type 0} → Quotients F → Config F → Bool
is_refused q c =
    ltb c.window second
    || (ltb (3600 * second) c.window
        || (not (c.window % second == 0)
            || (ltb c.min_events 1 || not (q.is_share c.min_coverage))))

unfoldable pub fresh_window : {F : Type 0} → Config F → ℕ → Window F
unfolding cleared
fresh_window c at = record {
  config = c;
  started = at;
  last = at;
  gap_until = 0;
  buckets = cleared (suc (c.window / second));
}

unfoldable pub new_window : {F : Type 0} → Quotients F → Config F → ℕ → Result (Window F)
unfolding is_refused fresh_window
new_window q c at =
    if is_refused q c
    then err
        "log windows require 1–3600 whole seconds, positive minimum records, and coverage between 0 and 1"
    else ok (fresh_window c at)

unfoldable pub gap : {F : Type 0} → Window F → ℕ → Window F
gap w at =
    let until = truncate at + (w.config.window + second) in
    if ltb w.gap_until until then record w { gap_until = until } else w

unfoldable pub reset : {F : Type 0} → Window F → ℕ → Window F
unfolding cleared
reset w at = record w {
  started = at;
  last = at;
  gap_until = 0;
  buckets = cleared (length w.buckets);
}

-- The bucket of a second, emptied if it held another one.
unfoldable pub renewed : ℕ → Bucket → Bucket
renewed s b = if b.at_second == s then b else empty_bucket s

unfoldable pub modify : ℕ → (Bucket → Bucket) → List Bucket → List Bucket
modify n f [] = []
modify zero f (b ∷ bs) = f b ∷ bs
modify (suc n) f (b ∷ bs) = b ∷ modify n f bs

unfoldable pub bucket_at : ℕ → List Bucket → Bucket
bucket_at n [] = empty_bucket 0
bucket_at zero (b ∷ bs) = b
bucket_at (suc n) (b ∷ bs) = bucket_at n bs

unfoldable pub channel_counted : String → Bucket → Bucket
channel_counted channel b =
    if str_eq channel "stdout"
    then record b { stdout = suc b.stdout }
    else if str_eq channel "stderr"
    then record b { stderr = suc b.stderr }
    else record b { other = suc b.other }

-- A level outside the range makes the record an invalid, unclassified one.
unfoldable pub effective : Classification → Level × Bool
effective c = elim c.level [ some l ↦ (l, c.invalid) | none ↦ (unclassified, true) ]

unfoldable pub recorded : Level × Bool → String → Bucket → Bucket
unfolding counted channel_counted
recorded (l, invalid) channel b =
    let more = channel_counted channel (record b { counts = counted l b.counts }) in
    record more { invalid = if invalid then suc b.invalid else b.invalid }

-- The index of a second in the ring, and the limit of a counter.
abbrev pub slot : ℕ → List Bucket → ℕ
slot s bs = s % length bs

abbrev pub limit : List Bucket → ℕ
limit bs = 2 ^ 53 / length bs / 7

unfoldable pub add_bucket : {F : Type 0} → Window F → ℕ → Level × Bool → String → Window F
unfolding renewed modify bucket_at recorded gap of_level
add_bucket w at e channel =
    let s = at / second in
    let bs = modify (slot s w.buckets) (renewed s) w.buckets in
    let ready = record w { buckets = bs } in
    if not (ltb (of_level e.0 (bucket_at (slot s bs) bs).counts) (limit bs))
    then gap ready at
    else record ready { buckets = modify (slot s bs) (recorded e channel) bs }

unfoldable pub add_from : {F : Type 0} → Window F → ℕ → Classification → String → Window F
unfolding add_bucket effective gap
add_from w at c channel =
    if c.blank
    then w
    else if ltb (at + w.config.window) w.last
    then gap w w.last
    else add_bucket (record w { last = if ltb w.last at then at else w.last }) at (effective c)
        channel

unfoldable pub dropped_one : ℕ → Bucket → Bucket
dropped_one top b = if ltb b.dropped top then record b { dropped = suc b.dropped } else b

unfoldable pub drop : {F : Type 0} → Window F → ℕ → Window F
unfolding renewed modify dropped_one gap
drop w at =
    let s = at / second in
    let g = gap w at in
    record g {
      buckets =
          modify (slot s g.buckets) (λ b. dropped_one (2 ^ 53 / length g.buckets) (renewed s b))
            g.buckets;
    }
