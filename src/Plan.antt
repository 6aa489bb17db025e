-- ===== src/Plan.antt =====
-- internal/plan/compile.go: the compiler of declarations.
pub mod Names
pub mod Durations
pub mod Policy
pub mod Targets
pub mod Order
pub mod Groups
pub mod Sorted
pub mod Distinct
pub mod Clean
pub mod Kept
pub mod Destination
pub mod Normal
pub mod Again
pub mod Settled
pub mod Bounds
pub mod Binary
pub mod Examples
