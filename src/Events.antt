-- ===== src/Events.antt =====
-- apps/control-plane/src/modules/events: events of the workers come in from a Redis stream, and go out
-- to the browsers.
pub mod Ingest
pub mod Sse
pub mod Merge
pub mod Merged
pub mod Hook
pub mod Resumed
pub mod Recorded
pub mod Ranges
pub mod Replay
mod Tests
