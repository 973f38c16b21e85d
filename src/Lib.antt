-- ===== src/Lib.antt =====
-- EvalFrog: the durable workflow engine of this repository.
--
-- A workflow is compiled to an immutable document, a graph of control and task nodes (internal/dsl). A
-- run of it is interpreted by the engine (internal/runtime/engine), which keeps one aggregate of the
-- package internal/runtime for the run, one for each node and one for each attempt of a task. Consumers
-- of events, the scheduler and timers call the engine; it moves the aggregates, and its state is saved
-- as records after each call.
--
-- Files, and the code they are about:
--   Prelude, Prelude/Tests, Prelude/Lists, Prelude/Assoc: Boolean tests, lists, and Go's maps as
--     association lists, with insert as the assignment m[k] = v
--   Json: JSON values, and the parameter Stdlib, the functions of Go's standard library (encoding/json,
--     math/big, reflect, strings) that the code calls
--   Dsl: internal/dsl/model.go; Dsl/Issue: issue.go; Dsl/Names, Contract, Ports, Config, Builtin, Graph,
--     Validate: validator.go, with Contract.Validate as validate, validateOutputs as validate_ports and
--     BuiltinV1Contract as builtin_contract; Dsl/Compatibility: compatibility.go
--   Dsl/Fuel, Reach, Paths: its loops; Dsl/Accepted, Connected, Bindings: what an accepted document has
--   Sandbox: internal/sandbox/source.go, the check of Python sources
--   Runtime/States, Failure, Error: the state names and transition tables of internal/runtime
--     (model.go, transitions.go, errors.go)
--   Runtime/Node, Attempt, Run, Termination, Completion: NodeRun, NodeAttempt and WorkflowRun of
--     internal/runtime/model.go, one function for each method
--   Runtime/Records, RunRecords: Snapshot and Restore of internal/runtime/records.go
--   Runtime/NodeMoves, NodeInvariant, RetryBudget, AttemptInvariant, RunMoves: what the methods keep
--   Engine/State, Inputs, Branch, Compare, Drive, Dispatch, Completed, Control, Create:
--     internal/runtime/engine/engine.go and branch.go; Engine/Restore: state.go. QueueNode is
--     queue_node, StartAttempt begin_attempt, RecordAttemptResult record_attempt_result,
--     HandleAttemptCompleted handle_attempt_completed, RetryDue engine_retry_due, RequestCancel
--     request_cancel, DeadlineReached deadline_reached, CancelAttempt cancel_attempt, New new_engine
--   Engine/Moves: the abstract machine of the engine; Engine/DriveMoves, OperationMoves, Refinement
--     follow the operations through it
--   Engine/Invariants, Creation, Histories, Attempts, Collect, Outcomes, Finality: what holds after any
--     list of calls; Engine/Pending, Fuel: the rounds of drive; Engine/Cases, Routes: the choice
--     of a branch
--   Engine/Accepted: New with the validation of the document
--   Scheduling: internal/scheduling/model.go; Scheduling/Plan: planner.go, BuildPlan and CreditBatches;
--     Scheduling/Workers: WorkerRegistration.Validate; Scheduling/Merge: mergeReservations of
--     scheduler.go; Scheduling/Capacity: BoundWindows
--   Scheduling/Select, Bounds, Rooms, Windows, Fairness, MaxMin, Batches, Reserved: what they keep
--   Tests/Fixture, Scenarios, Documents, Admissions, Witnesses: a workflow of three nodes, its runs, an
--     accepted document and a plan of admissions, and the theorems at them
--
-- How the state is modelled. The engine's maps hold the only references to the nodes and attempts, so
-- a method that changes one is a function to the new value, and the engine writes it back. An
-- operation returns an Outcome: its value or its error, with the engine as it is left, since some
-- operations fail after a first write. A Call is one call from outside with its arguments, and
-- perform_all makes a list of calls one after another, going on after errors; the code serializes the
-- calls of one run, so that interleavings are such lists.
--
-- Conventions. Unsigned counters wrap around, u32 and u64. A time is the number of nanoseconds since
-- Go's zero time. Strings of an enumerated type that are no constant of it have a constructor of their
-- own. A nil map is an empty map. Go's maps are walked in the order of their list; the code sorts
-- the identities where an order can be seen, and so does the model. A dereference of nil is the
-- error nil_dereference.
--
-- Fuel. The outer loop of drive takes fuel: one round for each node and one more. Every round that
-- another one follows takes a node out of the state pending, so this is enough. In the
-- validator the topological sort has one round for each node in the queue and each incoming edge that
-- is counted, and one more, and the search for reachable nodes two rounds more than there are edges;
-- both are enough. CreditBatches has one round for each admission; a numeral of twenty digits is enough
-- for an index; the test of a power of two has as many rounds as the number. All other loops are
-- structural: that of BuildPlan by the admissions that remain.
--
-- Not modelled: the texts of errors beyond their constant part, with the names, numbers and indices
-- that are put into them; trace_id and cancel_requested_at of a run's record, which the engine does not
-- read; cloneDocument, which makes a copy; the getters and ReadyNodeIDs. The validation of a document
-- is an argument of new_engine, two functions that give the first issue, which dsl_checks fills with
-- validate and check_all. The Python parser and the regular expression of import statements are
-- parameters, the hash of hash/fnv too. So is the floating-point limit of
-- BoundWindows. Of the scheduler, Rebalance, AdmitLane and DispatchWindows are not modelled, nor are
-- the compiler, the consumers, the workers and the adapters (internal/compiler, eventing, recovery, worker, adapters).
pub mod Prelude
pub mod Json
pub mod Sandbox
pub mod Runtime
pub mod Dsl
pub mod Engine
pub mod Scheduling
pub mod Tests
