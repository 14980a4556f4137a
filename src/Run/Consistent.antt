-- ===== src/Run/Consistent.antt =====
-- What holds of the database between two transactions, and that every operation keeps it.
pub mod Defs
pub mod Writes
pub mod Events
pub mod Moves
pub mod Attempts
pub mod Claims
pub mod Recovery
pub mod Endings
pub mod Commands
pub mod Control
pub mod Decisions
pub mod Creation
pub mod Confirmation
pub mod Histories
pub mod Final
