-- ===== src/Bench/Tasks/Math/Score.antt =====
-- What the grader of `hmasync_controller/bench/tasks/math500.py` counts.
