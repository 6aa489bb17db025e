-- ===== src/Delivery/Http/Acceptance.antt =====
-- internal/delivery/http.go `HTTP`: what a delivered or repeated outcome says of the response.
use ding.Base.{ℕ, ◌≤◌, ◌<◌, ◌≡◌, true, false, arith}
use ding.Delivery.Http.{
  Provider, Decoders, Response, response, http, refused, is_success, is_delivered,
}

refused-undelivered :
    (d : Decoders) (p : Provider) (r : Response) (now : ℕ)
    → is_delivered (refused d p r now).outcome ≡ false
unfolding refused
refused-undelivered d p r now = ground arith

pub http-behind :
    (d : Decoders) (p : Provider) (r : Response) (now : ℕ)
    → is_delivered (http d p (response r) now).outcome ≡ true
    → ((200 ≤ r.status) × (r.status < 300)) × ((r.readable ≡ true) × (r.small ≡ true))
unfolding http is_success
http-behind d p r now h = ground (arith, h, refused-undelivered d p r now)
