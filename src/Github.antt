-- ===== src/Github.antt =====
-- apps/control-plane/src/modules/github without delivery.service.ts: the addresses and commands that are
-- read from texts, the webhook, and the import of pull requests.
pub mod Address
pub mod Parsed
pub mod Command
pub mod Webhook
pub mod Authentic
pub mod Import
pub mod Pages
pub mod Redaction
pub mod Redacted
mod Tests
mod ImportTests
