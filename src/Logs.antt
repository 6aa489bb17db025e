-- ===== src/Logs.antt =====
-- internal/logs: how the output of an application becomes records (frame.go, multiline.go).
pub mod Frame
pub mod Boundaries
pub mod Writes
pub mod Bounds
pub mod Window
pub mod Summary
pub mod Counts
pub mod History
mod Scenario
mod Examples
