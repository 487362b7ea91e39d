-- ===== src/Api.antt =====
-- src/api and src/handlers.rs: the request guards and the handlers.
pub mod Request
pub mod Guard
pub mod Answer
pub mod Auth
pub mod Audiobooks
pub mod Libraries
pub mod RangedFile
mod Tests
