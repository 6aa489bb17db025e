-- ===== src/Delivery/Http.antt =====
-- internal/delivery/http.go `HTTP` and `RetryAfter`: the outcome of a response.
pub mod Acceptance
use ding.Base.{
  ℕ, ◌+◌, ◌*◌, ◌-◌, ◌≤◌, ◌<◌, ◌≡◌, ◌⊎◌, refl, String, Bool, true, false, not, ◌&&◌, ◌||◌, Option,
  none, some, ltb, leb, ◌==◌, str_eq, if◌then◌else◌, arith, min,
}
use ding.Base.Int.{ℤ, pos, negsuc}

pub data Outcome : Type 0 where
  delivered retryable permanent exhausted canceled : Outcome

abbrev pub is_retryable : Outcome → Bool
is_retryable retryable = true
is_retryable _ = false

abbrev pub is_delivered : Outcome → Bool
is_delivered delivered = true
is_delivered _ = false

pub record Result : Type 0 where
  pub outcome : Outcome
  pub retry_at : ℕ
  pub detail : String

pub data Provider : Type 0 where
  discord telegram slack pagerduty webhook : Provider

abbrev pub second : ℕ
second = 1_000_000_000

abbrev year_seconds : ℕ
year_seconds = 365 * 24 * 3600

pub record TelegramReply : Type 0 where
  pub succeeded : Bool
  pub code : ℤ
  pub retry : ℤ

-- What Go's library reads from a header or a body. `discord` is the smallest number of nanoseconds
-- not below `retry_after`, if that is positive and finite; `trim` is strings.TrimSpace.
pub record Decoders : Type 0 where
  pub parse_int : String → Option ℤ
  pub parse_time : String → Option ℕ
  pub discord_retry : String → Option ℕ
  pub telegram_retry : String → Option ℤ
  pub telegram_reply : String → Option TelegramReply
  pub pagerduty_status : String → Option String
  pub trim : String → String

-- A response whose body was read up to 64 KiB and one byte; `readable` is false after a read error
-- and `small` is false where the body was longer than 64 KiB.
pub record Response : Type 0 where
  pub status : ℕ
  pub status_text : String
  pub retry_header : String
  pub body : String
  pub readable : Bool
  pub small : Bool

pub data Exchange : Type 0 where
  bad_request : Exchange
  transport_failed : Exchange
  response : Response → Exchange

abbrev pub failure : Outcome → String → Result
failure o detail = record { outcome = o; retry_at = 0; detail = detail }

-- `RetryAfter` on a number of seconds; a negative one is no wait.
unfoldable pub retry_seconds : ℕ → ℤ → Option ℕ
retry_seconds now (pos n) = some (now + (if ltb year_seconds n then year_seconds else n) * second)
retry_seconds now (negsuc n) = none

abbrev pub later : ℕ → ℕ → ℕ
later a b = if ltb a b then b else a

module _ (d : Decoders) where
  open d use {
    parse_int, parse_time, discord_retry, telegram_retry, telegram_reply, pagerduty_status, trim,
  }

  retry_date : String → ℕ → ℕ
  retry_date value now = elim (parse_time value) [
    | some date ↦ if ltb now date then date else 0
    | none ↦ 0
  ]

  retry_number : String → ℕ → Option ℕ
  unfolding retry_seconds
  retry_number value now = elim (parse_int (trim value)) [
    | some n ↦ retry_seconds now n
    | none ↦ none
  ]

  unfoldable pub retry_after : String → ℕ → ℕ
  unfolding retry_number retry_date
  retry_after value now = elim (retry_number value now) [
    | some at ↦ at
    | none ↦ retry_date value now
  ]

  abbrev is_positive : ℤ → Bool
  is_positive (pos n) = ltb 0 n
  is_positive (negsuc n) = false

  positive_retry : ℤ → ℕ → ℕ
  unfolding retry_seconds
  positive_retry n now =
      if is_positive n then elim (retry_seconds now n) [ some at ↦ at | none ↦ 0 ] else 0

  -- The wait that a refusal's body asks for, 0 if none.
  refusal_retry : Provider → Response → ℕ → ℕ
  unfolding positive_retry
  refusal_retry discord r now =
      if (r.status == 429) && (r.readable && r.small)
      then elim (discord_retry r.body) [
        | some ns ↦ now + (if ltb (year_seconds * second) ns then year_seconds * second else ns)
        | none ↦ 0
      ]
      else 0
  refusal_retry telegram r now =
      if r.readable && r.small
      then elim (telegram_retry r.body) [ some n ↦ positive_retry n now | none ↦ 0 ]
      else 0
  refusal_retry _ r now = 0

  unfoldable pub is_transient : ℕ → Bool
  is_transient status = (status == 408) || ((status == 429) || leb 500 status)

  refused : Provider → Response → ℕ → Result
  unfolding is_transient refusal_retry
  refused p r now = record {
    outcome = if is_transient r.status then retryable else permanent;
    retry_at = later (retry_after r.retry_header now) (refusal_retry p r now);
    detail = r.status_text;
  }

  transient_code : ℤ → Bool
  transient_code (pos n) = (n == 429) || ((n == 408) || leb 500 n)
  transient_code (negsuc n) = false

  -- The status is 2xx here, so the outcome is retryable only by the code of the reply.
  telegram_refused : TelegramReply → Response → ℕ → Result
  unfolding transient_code positive_retry
  telegram_refused reply r now = record {
    outcome = if transient_code reply.code then retryable else permanent;
    retry_at =
        if is_positive reply.retry
        then positive_retry reply.retry now
        else retry_after r.retry_header now;
    detail = "Telegram rejected delivery";
  }

  accepted : Provider → Response → ℕ → Result
  unfolding telegram_refused
  accepted slack r now =
      if str_eq (trim r.body) "ok"
      then failure delivered ""
      else failure permanent "Slack rejected delivery"
  accepted telegram r now = elim (telegram_reply r.body) [
    | none ↦ failure retryable "invalid Telegram response"
    | some reply ↦ if reply.succeeded then failure delivered "" else telegram_refused reply r now
  ]
  accepted pagerduty r now = elim (pagerduty_status r.body) [
    | none ↦ failure retryable "invalid PagerDuty response"
    | some s ↦
        if str_eq s "success"
        then failure delivered ""
        else failure permanent "PagerDuty rejected delivery"
  ]
  accepted _ r now = failure delivered ""

  unfoldable pub is_success : ℕ → Bool
  is_success status = not (ltb status 200 || leb 300 status)

  unfoldable pub http : Provider → Exchange → ℕ → Result
  unfolding refused accepted is_success
  http p bad_request now = failure permanent "invalid delivery request"
  http p transport_failed now = failure retryable "delivery transport failed"
  http p (response r) now =
      if not (is_success r.status)
      then refused p r now
      else if not (r.readable && r.small)
      then failure retryable "invalid delivery response"
      else accepted p r now
