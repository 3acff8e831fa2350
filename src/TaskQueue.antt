-- ===== src/TaskQueue.antt =====
-- apps/server/internal/task: the durable task queue.
pub mod Model
pub mod Table
pub mod Log
pub mod Submit
pub mod Recovery
pub mod Leases
pub mod Finishing
pub mod Control
pub mod Runner
pub mod Rows
pub mod Change
pub mod Calls
pub mod Audit
pub mod Lifecycle
pub mod Idempotency
pub mod Replay
pub mod Fencing
pub mod Claims
pub mod LeaseOrder
pub mod Epochs
pub mod Recovered
pub mod Controls
pub mod Delays
pub mod Rounds
pub mod RoundOutcomes
pub mod RoundInvariant
mod Examples
mod RoundExamples
pub mod Adapter
pub mod Separate
mod AdapterExamples
pub mod View
pub mod Views
pub mod Pausing
pub mod Traces
