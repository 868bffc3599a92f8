-- ===== src/Privacy.antt =====
-- What keeps personal data out of the logs: src/fleet_management/privacy.
pub mod Correlation
pub mod Middleware
pub mod Sanitizer
pub mod Records
pub mod Handlers
mod Tests
