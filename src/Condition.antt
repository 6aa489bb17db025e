-- ===== src/Condition.antt =====
-- internal/condition: numeric expressions, the predicate of a watch, and the transition that one
-- observation makes. Each child says which functions it is about.
pub mod Numeric
pub mod Parser
pub mod Model
pub mod Compare
pub mod Windowed
pub mod Signals
pub mod Predicate
pub mod Emit
pub mod Policy
pub mod Frame
pub mod Evaluate
pub mod Lifecycle
pub mod Events
pub mod Invariant
pub mod Run
pub mod Routing
pub mod Targets
mod Examples
