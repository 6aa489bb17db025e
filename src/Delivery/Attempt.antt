-- ===== src/Delivery/Attempt.antt =====
-- internal/watchrun/workers.go `DeliverOne`: one attempt for a claimed intent, the time of the next
-- attempt and the policy that gives an intent up.
pub mod Schedule
use ding.Base.{
  ℕ, ◌+◌, ◌≤◌, ◌<◌, ◌≡◌, ◌⊎◌, refl, String, Bool, true, false, not, ◌&&◌, ◌||◌, ltb, leb,
  if◌then◌else◌, arith, Option, none, some, Bool-cases, inl, inr,
}
use ding.Delivery.Http.{
  Provider, Decoders, Exchange, http, is_retryable, is_delivered, Outcome, delivered, retryable,
  permanent, exhausted, canceled, Result, failure, later,
}
use ding.Delivery.Backoff.{backoff}

-- The spec of a destination as far as an attempt reads it; durations in nanoseconds.
pub record Policy : Type 0 where
  pub max_attempts : ℕ
  pub max_age : ℕ
  pub initial_backoff : ℕ

pub data Channel : Type 0 where
  console desktop : Channel
  remote : Provider → Channel

-- What the outside gives: whether the payload decodes and a notifier is set, whether the OS took
-- the notification, how the references resolve, and the results of console and HTTP.
pub record World : Type 0 where
  pub notifier : Bool
  pub notified : Bool
  pub credentials : Bool
  pub endpoint : Bool
  pub console_result : Result
  pub exchange : Exchange
  pub finished : ℕ
  pub jitter : ℕ
  pub interrupted : Bool

pub record Work : Type 0 where
  pub attempts : ℕ
  pub created_at : ℕ
  pub cycle_started : Option ℕ

-- A cycle that an operator restarted is measured from the restart.
unfoldable pub cycle_start : Work → ℕ
cycle_start w = elim w.cycle_started [ some at ↦ at | none ↦ w.created_at ]

unfoldable pub deadline : Policy → Work → ℕ
unfolding cycle_start
deadline p w = cycle_start w + p.max_age

unfoldable pub given_up : ℕ → Result
given_up at = record { outcome = exhausted; retry_at = at; detail = "delivery policy exhausted" }

unfoldable pub may_send : Policy → Work → ℕ → Bool
may_send p w now = leb w.attempts p.max_attempts && ltb now (deadline p w)

-- The earliest time of the next attempt: the delay and its jitter, or the provider's later wish.
unfoldable pub next_time : Policy → Work → World → Result → ℕ
next_time p w e r =
    later (e.finished + (backoff p.initial_backoff w.attempts + e.jitter)) r.retry_at

unfoldable pub scheduled : Policy → Work → World → Result → Result × ℕ
unfolding given_up
scheduled p w e r =
    let next = next_time p w e r in
    if not (is_retryable r.outcome)
    then (r, e.finished)
    else if leb p.max_attempts w.attempts || not (ltb next (deadline p w))
    then (given_up r.retry_at, next)
    else (r, next)

-- A shutdown leaves the work to be done again.
unfoldable pub unless_interrupted : World → Result × ℕ → Result × ℕ
unless_interrupted e out =
    if e.interrupted && not (is_delivered ((out.0).outcome))
    then (failure retryable "shutdown_interrupted", e.finished)
    else out

module _ (d : Decoders) where
  unfoldable pub send : Channel → World → ℕ → Result
  send console e now = e.console_result
  send desktop e now =
      if not e.notifier
      then failure permanent "desktop_unavailable"
      else if e.notified
      then failure delivered "accepted_by_os"
      else failure retryable "desktop_unavailable_or_permission_denied"
  send (remote p) e now =
      if not e.credentials
      then failure permanent "missing_credentials"
      else if not e.endpoint
      then failure permanent "invalid_endpoint"
      else http d p e.exchange now

  attempted : Policy → Channel → Work → ℕ → World → Result
  unfolding given_up
  attempted p c w now e = if may_send p w now then send c e now else given_up 0

  -- The result and the next time that `DeliverOne` hands to Finish.
  unfoldable pub deliver : Policy → Channel → Work → ℕ → World → Result × ℕ
  unfolding attempted scheduled unless_interrupted
  deliver p c w now e = unless_interrupted e (scheduled p w e (attempted p c w now e))
