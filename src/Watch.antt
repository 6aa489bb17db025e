-- ===== src/Watch.antt =====
-- internal/watch/types.go: observed values, observations, events and entity keys. A time is the
-- number of nanoseconds since Go's zero time, so 0 is the time for which `IsZero` holds.
mod Values
mod Types
unfoldable pub use Values.*
unfoldable pub use Types.*
