-- ===== src/Access.antt =====
-- internal/access/access.go: roles, actions and what a principal may do.
pub mod Policy
pub mod Roles
mod Examples
