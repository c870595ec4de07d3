-- ===== src/Controller.antt =====
-- The plant operator's reconciler (internal/controller).
pub mod Status
pub mod Types
pub mod Apply
pub mod Resources
pub mod Merge
pub mod Mutate
pub mod Setup
pub mod Children
pub mod Writes
pub mod Reconcile
mod Tests
