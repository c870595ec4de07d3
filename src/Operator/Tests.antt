-- ===== src/Operator/Tests.antt =====
-- The process of plant-operator on concrete inputs.
mod Coder
mod Runs
