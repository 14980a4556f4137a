-- ===== src/Tasks.antt =====
-- apps/control-plane/src/modules/task/task.controller.ts: the list of the tasks, page by page, and one task.
pub mod Listing
pub mod Pages
mod Tests
