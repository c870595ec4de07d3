-- ===== src/Controller/Tests.antt =====
-- The operator on concrete objects: a conditions setter, an API server of one object, and the runs.
mod Conditions
mod Cell
mod Runs
mod Family
mod Operator
