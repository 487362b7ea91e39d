-- ===== src/Worker.antt =====
-- src/worker: the scan of a library.
pub mod Host
pub mod Hashing
pub mod Scanner
mod Tests
