-- ===== src/Runtime.antt =====
-- internal/runtime: the aggregates of a workflow run and their persistence records.
pub mod Error
pub mod States
pub mod Failure
pub mod Run
pub mod Node
pub mod Attempt
pub mod Termination
pub mod Completion
pub mod Records
pub mod RunRecords
pub mod NodeMoves
pub mod NodeInvariant
pub mod RetryBudget
pub mod AttemptInvariant
pub mod RunMoves
