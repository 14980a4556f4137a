-- ===== src/Shared.antt =====
-- packages/shared: the types that the services agree on.
pub mod Enums
pub mod TaskSnapshot
pub mod RunCommand
