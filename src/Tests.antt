-- ===== src/Tests.antt =====
-- Concrete documents, runs and engines.
pub mod Fixture
pub mod Scenarios
pub mod Documents
pub mod Admissions
pub mod Witnesses
