-- ===== src/Delivery/Attempt/Schedule.antt =====
-- internal/watchrun/workers.go `DeliverOne`: when an attempt is repeated and when it has delivered.
use ding.Base.{ℕ, ◌+◌, ◌≤◌, ◌<◌, ◌≡◌, true, false, arith, refl, subst}
use ding.Delivery.Http.{
  Provider, Decoders, Exchange, bad_request, transport_failed, Response, response, http,
  is_retryable, is_delivered,
}
use ding.Delivery.Http.Acceptance.{http-behind}
use ding.Delivery.Backoff.{backoff}
use ding.Delivery.Attempt.{
  Policy, Channel, remote, World, Work, deadline, may_send, next_time, given_up, scheduled,
  unless_interrupted, send, attempted, deliver,
}

-- When an attempt that no shutdown interrupts is to be repeated, attempts are left, the next one
-- is due before the deadline of the cycle, no sooner than the backoff after the end of this one,
-- and no sooner than the provider asked.
pub deliver-schedule :
    (d : Decoders) (p : Policy) (c : Channel) (w : Work) (now : ℕ) (e : World)
    → e.interrupted ≡ false
    → is_retryable ((deliver d p c w now e).0).outcome ≡ true
    → ((w.attempts < p.max_attempts) × ((deliver d p c w now e).1 < deadline p w))
      × ((e.finished + backoff p.initial_backoff w.attempts ≤ (deliver d p c w now e).1)
          × (((deliver d p c w now e).0).retry_at ≤ (deliver d p c w now e).1))
unfolding deliver unless_interrupted scheduled attempted next_time given_up may_send
deliver-schedule d p c w now e ready r = ground (arith, ready, r)

-- What a delivered HTTP attempt has behind it.
pub data Delivered (d : Decoders) (p : Policy) (w : Work) (now : ℕ) (e : World) : Type 0 where
  behind :
      (r : Response)
      → e.exchange ≡ response r
      → (w.attempts ≤ p.max_attempts) × (now < deadline p w)
      → (e.credentials ≡ true) × (e.endpoint ≡ true)
      → (200 ≤ r.status) × (r.status < 300)
      → (r.readable ≡ true) × (r.small ≡ true)
      → Delivered d p w now e

deliver_sent :
    (d : Decoders) (p : Policy) (c : Provider) (w : Work) (now : ℕ) (e : World)
    → is_delivered ((deliver d p (remote c) w now e).0).outcome ≡ true
    → (((w.attempts ≤ p.max_attempts) × (now < deadline p w))
        × ((e.credentials ≡ true) × (e.endpoint ≡ true)))
      × (is_delivered (http d c e.exchange now).outcome ≡ true)
unfolding deliver unless_interrupted scheduled attempted given_up may_send send
deliver_sent d p c w now e h = ground (arith, h)

-- An intent of an HTTP channel counts as delivered only when the attempt was within the policy
-- and before its deadline, credentials and endpoint resolved, and the response had a status from
-- 200 to 299 and a body that was read whole and is at most 64 KiB long.
pub deliver-Delivered :
    (d : Decoders) (p : Policy) (c : Provider) (w : Work) (now : ℕ) (e : World)
    → is_delivered ((deliver d p (remote c) w now e).0).outcome ≡ true
    → Delivered d p w now e
unfolding http
deliver-Delivered d p c w now e h =
    let sent = deliver_sent d p c w now e h in cases sent.0 e.exchange refl sent.1
  where
    cases :
        ((w.attempts ≤ p.max_attempts) × (now < deadline p w))
          × ((e.credentials ≡ true) × (e.endpoint ≡ true))
        → (x : Exchange) → e.exchange ≡ x
        → is_delivered (http d c e.exchange now).outcome ≡ true
        → Delivered d p w now e
    cases sent bad_request q k =
        ground (arith, subst (λ x. is_delivered (http d c x now).outcome ≡ true) q k)
    cases sent transport_failed q k =
        ground (arith, subst (λ x. is_delivered (http d c x now).outcome ≡ true) q k)
    cases sent (response r) q k =
        let b =
          http-behind d c r now (subst (λ x. is_delivered (http d c x now).outcome ≡ true) q k) in
        behind r q sent.0 sent.1 b.0 b.1
