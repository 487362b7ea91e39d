-- ===== src/Models.antt =====
-- src/models: the operations on the rows.
pub mod Permission
pub mod User
pub mod Library
pub mod Everyone
pub mod Access
pub mod Audiobook
pub mod Playstate
mod Tests
