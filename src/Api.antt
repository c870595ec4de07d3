-- ===== src/Api.antt =====
-- buddy-api: internal/api.
pub mod Window
pub mod Metrics
pub mod Recorder
pub mod Server
pub mod Lifecycle
pub mod Config
mod Tests
