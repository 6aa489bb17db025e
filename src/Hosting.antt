-- ===== src/Hosting.antt =====
-- internal/hostingpolicy/capacity.go: the capacity of a hosted workspace.
pub mod Capacity
pub mod Limits
mod Examples
