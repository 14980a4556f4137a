-- ===== src/Store.antt =====
-- The database of the control plane (apps/control-plane/prisma/schema.prisma) and transactions on it.
pub mod Table
pub mod Rows
pub mod Tx
pub mod Keeps
pub mod Queries
pub mod Examples
