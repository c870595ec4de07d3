-- ===== src/Chaos.antt =====
-- chaos-buddy: internal/chaos and cmd/chaos-buddy.
pub mod Types
pub mod Engine
pub mod Execute
pub mod Client
pub mod Config
pub mod Loop
mod Tests
