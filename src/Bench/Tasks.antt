-- ===== src/Bench/Tasks.antt =====
-- The graders of `hmasync_controller/bench/tasks`.
pub mod Boxed
pub mod Math
pub mod Items
pub mod Longctx
pub mod Examples
