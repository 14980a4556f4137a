-- ===== src/Delivery.antt =====
-- apps/control-plane/src/modules/github/delivery.service.ts: decisions on verified patches, and the jobs
-- that deliver the approved ones as pull requests.
pub mod Decision
pub mod Jobs
pub mod Plan
pub mod Deliver
pub mod Acts
pub mod Published
pub mod Again
pub mod Asks
pub mod Once
pub mod Laws
pub mod Examples
mod Tests
mod DeliverTests
