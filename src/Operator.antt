-- ===== src/Operator.antt =====
-- The process of plant-operator (cmd/plant-operator).
pub mod Flags
pub mod Bundle
pub mod Patch
pub mod Serving
pub mod Bootstrap
mod Tests
