-- ===== src/Run.antt =====
-- apps/control-plane/src/modules/run: the life of a run, from its claim by a worker to its end.
pub mod Clock
pub mod Transition
pub mod Commands
pub mod Demo
pub mod Creation
pub mod Drafting
pub mod Confirmation
pub mod Once
pub mod Claim
pub mod Retry
pub mod Recovery
pub mod Decided
pub mod Complete
pub mod Checkpoints
pub mod Expiry
pub mod Worker
pub mod Control
pub mod Budget
pub mod Lease
pub mod Requests
pub mod Held
pub mod Operations
pub mod Fencing
pub mod Spending
pub mod Cancelling
pub mod Budgeted
pub mod Admission
pub mod Renewal
pub mod Examples
mod Tests
mod CreationTests
mod FinalTests
pub mod Consistent
