-- ===== src/Tasks.antt =====
-- cmd/tya/task.go, the task runner: the graph of dependencies (Graph), the shell commands of a task
-- (Shell), and the order in which tasks run (Run).
pub mod Graph
pub mod Shell
pub mod Run
pub mod Command
