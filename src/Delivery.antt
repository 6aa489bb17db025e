-- ===== src/Delivery.antt =====
-- internal/delivery/http.go and DeliverOne of internal/watchrun/workers.go: what one attempt gives,
-- when the next is due, and when an intent is given up.
pub mod Http
pub mod Backoff
pub mod Attempt
mod Examples
