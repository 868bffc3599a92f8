-- ===== src/Models.antt =====
-- The tables (src/fleet_management/models), one record for each row type, with the tests on
-- their enumerations.
pub mod Fleet
pub mod Account
pub mod Privacy
