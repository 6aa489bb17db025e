-- ===== src/Plan/Again.antt =====
-- What `CompileDestination` and the policy and limits of `Compile` give is a fixed point of them.
use ding.Base.{ℕ, ◌*◌, ◌≡◌, refl, ap, ◌∙◌, subst, String, true, false, some, str_eq, ok, arith}
use ding.Base.Ensures.{ok_injective}
use ding.Plan.Durations.{
  Durations, second, millisecond, hour_long, day_long, within, duration, normal_duration,
}
use ding.Plan.Normal.{
  passed, passes, or_text-full, bind-ok, bind-from, or_text-keeps, or_int-keeps,
  normal_duration-empty, duration-normal, normal_duration-again,
}
use ding.Plan.Destination.{
  Destination, DestinationSpec, CompiledDestination, header, settings_checked, refs, with_defaults,
  retries_checked, normal_retries, revised, compile_destination,
}

module _ (durations : Durations)
    (reads_back : (d : ℕ) → durations.parse (durations.print d) ≡ some d)
    (prints : (d : ℕ) → str_eq (durations.print d) "" ≡ false) where
  defaults_kept :
      (n : DestinationSpec)
      → within 1 100 n.max_attempts ≡ true
      → str_eq n.max_age "" ≡ false
      → str_eq n.initial_backoff "" ≡ false
      → with_defaults n ≡ n
  unfolding with_defaults
  defaults_kept n a b c = λ i. record n {
    max_attempts = or_int-keeps 8 1 100 n.max_attempts (omega arith) a i;
    max_age = or_text-keeps "24h" n.max_age b i;
    initial_backoff = or_text-keeps "1s" n.initial_backoff c i;
  }

  defaults_full :
      (s : DestinationSpec)
      → (str_eq (with_defaults s).max_age "" ≡ false)
        × (str_eq (with_defaults s).initial_backoff "" ≡ false)
  unfolding with_defaults
  defaults_full s = (or_text-full "24h" s.max_age refl, or_text-full "1s" s.initial_backoff refl)

  normal_again :
      (s : DestinationSpec)
      → normal_retries durations (normal_retries durations s) ≡ normal_retries durations s
  unfolding normal_retries
  normal_again s = λ i. record s {
    max_age = normal_duration-again durations reads_back prints s.max_age i;
    initial_backoff = normal_duration-again durations reads_back prints s.initial_backoff i;
  }

  retries_kept :
      (s : DestinationSpec)
      → retries_checked durations s ≡ ok tt
      → (within 1 100 s.max_attempts ≡ true)
        × (retries_checked durations (normal_retries durations s) ≡ ok tt)
  unfolding retries_checked normal_retries
  retries_kept s h =
      let p = passed (within 1 100 s.max_attempts) _ _ h in
      let age = bind-ok (duration durations s.max_age second (7 * day_long)) _ p.1 in
      let backoff =
        bind-ok (duration durations s.initial_backoff millisecond hour_long) _ age.1.1 in
      (
        p.0,
        passes (within 1 100 s.max_attempts) _ _ p.0 (
            bind-from
              (duration durations (normal_duration durations s.max_age) second (7 * day_long)) _
              (duration-normal durations reads_back prints s.max_age second (7 * day_long) age.0
                age.1.0)
              (bind-from
                (duration durations (normal_duration durations s.initial_backoff) millisecond
                  hour_long)
                _
                (duration-normal durations reads_back prints s.initial_backoff millisecond hour_long
                  backoff.0 backoff.1.0)
                refl)),
      )

  module _ (digest : Destination → String) where
    -- The definition that is compiled from the settings `s`.
    destination_again :
        (d : Destination) (s : DestinationSpec)
        → header d.api_version d.kind d.metadata "Destination" ≡ ok tt
        → settings_checked durations s ≡ ok tt
        → refs s.headers ≡ ok tt
        → retries_checked durations (with_defaults s) ≡ ok tt
        → compile_destination durations digest
            record d { spec = normal_retries durations (with_defaults s) }
          ≡ ok (
              revised durations digest
                record d { spec = normal_retries durations (with_defaults s) })
    unfolding compile_destination
    destination_again d s a b c e =
        let q = with_defaults s in
        let n = normal_retries durations q in
        let kept = retries_kept q e in
        let full = defaults_full s in
        let same =
          defaults_kept n kept.0
            (normal_duration-empty durations reads_back prints q.max_age ∙ full.0)
            (normal_duration-empty durations reads_back prints q.initial_backoff ∙ full.1) in
        bind-from (header d.api_version d.kind d.metadata "Destination") _ a (
          bind-from (settings_checked durations n) _ b (
            bind-from (refs n.headers) _ c (
              bind-from (retries_checked durations (with_defaults n)) _
                (ap (retries_checked durations) same ∙ kept.1)
                (ap (λ t. ok (revised durations digest record d { spec = t }))
                  (ap (normal_retries durations) same ∙ normal_again q)))))

    -- A destination that CompileDestination gives, compiled again, gives itself with the same
    -- revision. Asked is that a duration that was printed reads back as it was and is not
    -- printed as the empty text.
    pub compile_destination-again :
        (d : Destination) (c : CompiledDestination)
        → compile_destination durations digest d ≡ ok c
        → compile_destination durations digest c.definition ≡ ok c
    unfolding compile_destination revised
    compile_destination-again d c h =
        let headed = bind-ok (header d.api_version d.kind d.metadata "Destination") _ h in
        let settings = bind-ok (settings_checked durations d.spec) _ headed.1.1 in
        let secrets = bind-ok (refs d.spec.headers) _ settings.1.1 in
        let retries = bind-ok (retries_checked durations (with_defaults d.spec)) _ secrets.1.1 in
        subst (λ x. compile_destination durations digest x.definition ≡ ok x)
          (ok_injective retries.1.1)
          (destination_again d d.spec headed.1.0 settings.1.0 secrets.1.0 retries.1.0)
