-- ===== src/Delivery/Examples.antt =====
-- A Slack destination that is refused once with status 503 and then takes the message.
use ding.Base.{◌*◌, ◌+◌, ◌≤◌, ◌<◌, ◌≡◌, refl, true, false, none, min, ◌^◌, arith}
use ding.Delivery.Http.{
  retry_after, second, failure, retryable, slack, Decoders, Response, response, http,
}
use ding.Delivery.Backoff.{backoff, hour, backoff-eq-min}
use ding.Delivery.Attempt.{
  may_send, send, next_time, Policy, World, Work, remote, deliver, deadline,
}
use ding.Delivery.Attempt.Schedule.{deliver-schedule, Delivered, deliver-Delivered}

abbrev reader : Decoders
reader = record {
  parse_int = λ _. none;
  parse_time = λ _. none;
  discord_retry = λ _. none;
  telegram_retry = λ _. none;
  telegram_reply = λ _. none;
  pagerduty_status = λ _. none;
  trim = λ s. s;
}

abbrev policy : Policy
policy = record { max_attempts = 3; max_age = 3600 * second; initial_backoff = 30 * second }

abbrev second_attempt : Work
second_attempt = record { attempts = 2; created_at = 100 * second; cycle_started = none }

abbrev unavailable : Response
unavailable = record {
  status = 503;
  status_text = "HTTP 503";
  retry_header = "";
  body = "";
  readable = true;
  small = true;
}

abbrev taken : Response
taken = record {
  status = 200;
  status_text = "HTTP 200";
  retry_header = "";
  body = "ok";
  readable = true;
  small = true;
}

abbrev world : Response → World
world r = record {
  notifier = false;
  notified = false;
  credentials = true;
  endpoint = true;
  console_result = failure retryable "";
  exchange = response r;
  finished = 151 * second;
  jitter = second;
  interrupted = false;
}

refused_run :
    (deliver reader policy (remote slack) second_attempt (150 * second) (world unavailable)).1
    ≡ 212 * second
unfolding deliver may_send deadline send http next_time backoff retry_after
refused_run = refl

deliver-schedule_example :
    ((2 < 3)
      × ((deliver reader policy (remote slack) second_attempt (150 * second) (world unavailable)).1
          < deadline policy second_attempt))
    × ((151 * second + backoff (30 * second) 2
          ≤ (deliver reader policy
              (remote slack)
              second_attempt
              (150 * second)
              (world unavailable)).1)
        × (((deliver reader policy
                (remote slack)
                second_attempt
                (150 * second)
                (world unavailable)).0
              ).retry_at
            ≤ (deliver reader policy
                (remote slack)
                second_attempt
                (150 * second)
                (world unavailable)).1))
unfolding deliver may_send deadline send http next_time backoff retry_after
deliver-schedule_example =
    deliver-schedule reader policy (remote slack) second_attempt (150 * second) (world unavailable)
      refl refl

deliver-Delivered_example : Delivered reader policy second_attempt (150 * second) (world taken)
unfolding deliver may_send deadline send http next_time backoff retry_after
deliver-Delivered_example =
    deliver-Delivered reader policy slack second_attempt (150 * second) (world taken) refl

backoff-eq-min_example : backoff (30 * second) 4 ≡ min hour (30 * second * 2 ^ 3)
backoff-eq-min_example = backoff-eq-min (30 * second) 4 (ground arith)
