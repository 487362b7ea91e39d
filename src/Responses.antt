-- ===== src/Responses.antt =====
-- src/responses: what the handlers answer with.
pub mod Tests
pub mod Status
pub mod Success
pub mod Error
pub mod Convert
pub mod Disclosure
