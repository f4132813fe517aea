-- ===== src/PlanExec.antt =====
-- internal/planexec/executor.go: the scheduler of a retrieval plan.
pub mod Rules
pub mod Nodes
pub mod Queue
pub mod Run
pub mod Receive
pub mod Moves
pub mod Rounds
pub mod Loop
pub mod Execute
pub mod Counts
pub mod Start
pub mod Transitions
pub mod Stable
pub mod Attempts
pub mod Dependencies
pub mod Progress
pub mod Waiting
pub mod Totals
pub mod Delays
pub mod Settling
pub mod Outcome
pub mod Complete
pub mod Examples
pub mod WholeExample
