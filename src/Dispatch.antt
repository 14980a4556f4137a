-- ===== src/Dispatch.antt =====
-- apps/control-plane/src/modules/dispatch/outbox-publisher.ts: the commands on their way to the workers.
pub mod Outbox
pub mod Publication
mod Tests
