-- ===== src/Runtime.antt =====
-- internal/watchrun with the rows of internal/store that it reads and writes: the acceptance of
-- observations, the entity cache of one acceptance, and the lifecycle of a watch.
pub mod Tables
pub mod Cache
pub mod Emission
pub mod Overlay
pub mod Coherent
pub mod Steps
pub mod Direct
pub mod Refinement
pub mod Accept
pub mod Control
pub mod History
pub mod Superseded
mod Examples
