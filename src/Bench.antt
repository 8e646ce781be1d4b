-- ===== src/Bench.antt =====
-- Parts of the benchmark suite of `hmasync_controller/bench`: the score of a summary, the choice of
-- models, the power sweep, the reaction to a hot card and the redaction check of a bundle.
pub mod Rouge
pub mod Roster
pub mod Sweep
pub mod Thermal
pub mod Bundle
pub mod Tasks
pub mod Metrics
