-- ===== src/Executor.antt =====
-- `hmasync_controller/executor.py`. `Schedule` parses what the API and the job catalog give,
-- `Select` chooses the placements that are due, `Run` executes them, and `Tick` is the loop.
pub mod Schedule
pub mod Select
pub mod Run
pub mod Tick
pub mod Order
pub mod Once
pub mod Attempts
pub mod Invariant
pub mod Protocol
pub mod Window
pub mod Examples
