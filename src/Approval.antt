-- ===== src/Approval.antt =====
-- apps/control-plane/src/modules/approval/approval.service.ts: decisions on verified patches of every task.
pub mod Decide
pub mod Pull
mod Tests
