-- ===== src/Http.antt =====
-- HTTP: requests and responses.
pub mod Request
pub mod StatusCode
pub mod Response
pub mod Pipeline
pub mod Retry
