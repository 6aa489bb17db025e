-- ===== src/Logs/Counts.antt =====
-- The summaries of a window hold counts that Assess takes as consistent.
use ding.Base.{
  ℕ, zero, suc, ◌+◌, ◌-◌, ◌/◌, ◌^◌, ◌≤◌, ◌≡◌, refl, sym, subst, ◌∙◌, Bool, true, false, not, ◌||◌,
  String, List, [], ◌∷◌, length, All, arith, ltb, leb, ◌==◌, if◌then◌else◌, if_either,
}
use ding.Logs.Window.{
  second, truncate, Level, unclassified, trace, debug, info, warning, error, fatal, Classification,
  Quotients, Config, Bucket, Window, empty_bucket, cleared, counted, gap, renewed, modify,
  bucket_at, of_level, limit, channel_counted, effective, recorded, add_bucket, add_from,
  dropped_one, drop, slot,
}
use ding.Logs.Summary.{
  Tally, tallied, Summary, sum_counts, tally, sufficiency, summary_of, judged, snapshot,
  counts_agree, channels_agree,
}

-- The counters of a bucket: each record is on one channel, and an invalid one is unclassified.
pub record Fair (b : Bucket) : Type 0 where
  pub invalid_le : b.invalid ≤ b.counts.unclassified_count
  pub channels_eq : sum_counts b.counts ≡ b.stdout + b.stderr + b.other

empty-Fair : (s : ℕ) → Fair (empty_bucket s)
unfolding sum_counts
empty-Fair s = record { invalid_le = omega arith; channels_eq = refl }

pub cleared-Fair : (n : ℕ) → All Fair (cleared n)
unfolding cleared
cleared-Fair zero = tt
cleared-Fair (suc n) = (empty-Fair 0, cleared-Fair n)

renewed-Fair : (s : ℕ) (b : Bucket) → Fair b → Fair (renewed s b)
unfolding renewed
renewed-Fair s b h = cases (b.at_second == s)
  where
    cases : (e : Bool) → Fair (if e then b else empty_bucket s)
    cases true = h
    cases false = empty-Fair s

modify-All :
    (P : Bucket → Type 0) (n : ℕ) (f : Bucket → Bucket) (bs : List Bucket)
    → ((b : Bucket) → P b → P (f b))
    → All P bs
    → All P (modify n f bs)
unfolding modify
modify-All P n f [] h a = tt
modify-All P zero f (b ∷ bs) h a = (h b a.0, a.1)
modify-All P (suc n) f (b ∷ bs) h a = (a.0, modify-All P n f bs h a.1)

recorded_valid :
    (l : Level) (channel : String) (b : Bucket) → Fair b → Fair (recorded (l, false) channel b)
unfolding recorded channel_counted counted sum_counts
recorded_valid l channel b h = record {
  invalid_le = ground (arith, h.invalid_le);
  channels_eq = ground (arith, h.channels_eq);
}

recorded_invalid :
    (channel : String) (b : Bucket) → Fair b → Fair (recorded (unclassified, true) channel b)
unfolding recorded channel_counted counted sum_counts
recorded_invalid channel b h = record {
  invalid_le = ground (arith, h.invalid_le);
  channels_eq = ground (arith, h.channels_eq);
}

-- The pair that a coherent classification gives.
abbrev pub Possible : Level × Bool → Type 0
Possible (unclassified, i) = Unit
Possible (l, i) = i ≡ false

recorded-Fair :
    (l : Level) (i : Bool) (channel : String) (b : Bucket)
    → Possible (l, i)
    → Fair b
    → Fair (recorded (l, i) channel b)
recorded-Fair l false channel b k h = recorded_valid l channel b h
recorded-Fair unclassified true channel b k h = recorded_invalid channel b h
recorded-Fair trace true channel b k h = ground (arith, k)
recorded-Fair debug true channel b k h = ground (arith, k)
recorded-Fair info true channel b k h = ground (arith, k)
recorded-Fair warning true channel b k h = ground (arith, k)
recorded-Fair error true channel b k h = ground (arith, k)
recorded-Fair fatal true channel b k h = ground (arith, k)

-- The sums of fair buckets.
record Agrees (t : Tally) : Type 0 where
  pub invalid_le : t.invalid ≤ t.unclassified
  pub channels_eq : t.total ≡ t.stdout + t.stderr + t.other
  pub parts_le : t.unclassified + (t.warnings + t.errors + t.fatals) ≤ t.total

tallied-Agrees : (b : Bucket) (t : Tally) → Fair b → Agrees t → Agrees (tallied b t)
unfolding tallied sum_counts
tallied-Agrees b t h a = record {
  invalid_le = omega (arith, h.invalid_le, a.invalid_le);
  channels_eq = omega (arith, h.channels_eq, a.channels_eq);
  parts_le = omega (arith, a.parts_le);
}

tally-Agrees : (start end : ℕ) (bs : List Bucket) → All Fair bs → Agrees (tally start end bs)
unfolding tally
tally-Agrees start end [] a = record {
  invalid_le = omega arith;
  channels_eq = refl;
  parts_le = omega arith;
}
tally-Agrees start end (b ∷ bs) a =
    cases (ltb b.at_second start || leb end b.at_second) (tally start end bs)
      (tally-Agrees start end bs a.1)
  where
    cases : (e : Bool) (t : Tally) → Agrees t → Agrees (if e then t else tallied b t)
    cases true t h = h
    cases false t h = tallied-Agrees b t a.0 h

module _ {F : Type 0} (q : Quotients F) where
  -- The same verdict on the counts.
  abbrev Alike : Summary F → Summary F → Type 0
  Alike s s' = (counts_agree q s' ≡ counts_agree q s) × (channels_agree q s' ≡ channels_agree q s)

  sufficiency-Alike : (c : Config F) (s : Summary F) → Alike s (sufficiency q c s)
  unfolding sufficiency counts_agree channels_agree
  sufficiency-Alike c s =
      if_either (Alike s) (ltb s.total c.min_events) _ _ (refl, refl)
        (if_either (Alike s) (q.less s.coverage c.min_coverage) _ _ (refl, refl) (refl, refl))

  judged-Alike : (w : Window F) (s : Summary F) → Alike s (judged q w s)
  unfolding judged counts_agree channels_agree
  judged-Alike w s =
      if_either (Alike s) (ltb s.window_end w.gap_until) _ _ (refl, refl)
        (if_either (Alike s) (ltb 0 s.invalid) _ _ (refl, refl)
          (if_either (Alike s) (ltb s.window_end (w.started + w.config.window)) _ _ (refl, refl)
            (sufficiency-Alike w.config s)))

  summary_of-Agrees :
      (w : Window F) (end : ℕ) (t : Tally)
      → Agrees t
      → (counts_agree q (summary_of q w end t) ≡ true)
        × (channels_agree q (summary_of q w end t) ≡ true)
  unfolding summary_of counts_agree channels_agree
  summary_of-Agrees w end t a =
      (ground (arith, a.invalid_le, a.parts_le), ground (arith, a.channels_eq))

  pub snapshot-agrees :
      (w : Window F) (at : ℕ)
      → All Fair w.buckets
      → (counts_agree q (snapshot q w at) ≡ true) × (channels_agree q (snapshot q w at) ≡ true)
  unfolding snapshot
  snapshot-agrees w at a =
      let end = truncate at in
      let t = tally ((end - w.config.window) / second) (end / second) w.buckets in
      let h =
        summary_of-Agrees w end t
          (tally-Agrees ((end - w.config.window) / second) (end / second) w.buckets a) in
      let j = judged-Alike w (summary_of q w end t) in (j.0 ∙ h.0, j.1 ∙ h.1)

dropped_one-Fair : (top : ℕ) (b : Bucket) → Fair b → Fair (dropped_one top b)
unfolding dropped_one
dropped_one-Fair top b h =
    if_either Fair (ltb b.dropped top) _ _
      (record { invalid_le = h.invalid_le; channels_eq = h.channels_eq }) h

module _ {F : Type 0} where
  gap-buckets : (w : Window F) (at : ℕ) → (gap w at).buckets ≡ w.buckets
  unfolding gap
  gap-buckets w at = ground arith

  pub gap-Fair : (w : Window F) (at : ℕ) → All Fair w.buckets → All Fair (gap w at).buckets
  gap-Fair w at a = subst (All Fair) (sym (gap-buckets w at)) a

  add_bucket-Fair :
      (w : Window F) (at : ℕ) (e : Level × Bool) (channel : String)
      → Possible e
      → All Fair w.buckets
      → All Fair (add_bucket w at e channel).buckets
  unfolding add_bucket
  add_bucket-Fair w at e channel k a =
      let s = at / second in
      let bs = modify (slot s w.buckets) (renewed s) w.buckets in
      let fair = modify-All Fair (slot s w.buckets) (renewed s) w.buckets (renewed-Fair s) a in
      if_either {A = Window F} (λ w'. All Fair w'.buckets)
        (not (ltb (of_level e.0 (bucket_at (slot s bs) bs).counts) (limit bs))) _ _
        (gap-Fair (record w { buckets = bs }) at fair)
        (modify-All Fair (slot s bs) (recorded e channel) bs
          (λ b h. recorded-Fair e.0 e.1 channel b k h) fair)

  pub add_from-Fair :
      (w : Window F) (at : ℕ) (c : Classification) (channel : String)
      → Possible (effective c)
      → All Fair w.buckets
      → All Fair (add_from w at c channel).buckets
  unfolding add_from
  add_from-Fair w at c channel k a =
      if_either {A = Window F} (λ w'. All Fair w'.buckets) c.blank _ _ a
        (if_either {A = Window F} (λ w'. All Fair w'.buckets) (ltb (at + w.config.window) w.last) _
          _ (gap-Fair w w.last a)
          (add_bucket-Fair (record w { last = if ltb w.last at then at else w.last }) at
            (effective c) channel k a))

  pub drop-Fair : (w : Window F) (at : ℕ) → All Fair w.buckets → All Fair (drop w at).buckets
  unfolding drop
  drop-Fair w at a =
      let s = at / second in
      let bs = (gap w at).buckets in
      modify-All Fair (slot s bs) (λ b. dropped_one (2 ^ 53 / length bs) (renewed s b)) bs
        (λ b h. dropped_one-Fair (2 ^ 53 / length bs) (renewed s b) (renewed-Fair s b h))
        (gap-Fair w at a)
