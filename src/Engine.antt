-- ===== src/Engine.antt =====
-- internal/runtime/engine: the interpreter of a workflow run.
pub mod State
pub mod Compare
pub mod Branch
pub mod Inputs
pub mod Drive
pub mod Dispatch
pub mod Completed
pub mod Control
pub mod Create
pub mod Restore
pub mod Moves
pub mod DriveMoves
pub mod OperationMoves
pub mod Refinement
pub mod Invariants
pub mod Creation
pub mod Histories
pub mod Finality
pub mod Collect
pub mod Outcomes
pub mod Pending
pub mod Fuel
pub mod Cases
pub mod Routes
pub mod Accepted
pub mod Attempts
