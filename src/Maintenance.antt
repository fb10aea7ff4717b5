-- ===== src/Maintenance.antt =====
-- src/modules/maintenance: the two repeatable jobs, and the batch statements that they run.
pub mod Repository
pub mod Sweeper
pub mod DataRetention
