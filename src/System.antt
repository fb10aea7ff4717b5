-- ===== src/System.antt =====
-- The program as a whole: the statements that its processes run on the database, in any order, and
-- the calls of its services and workers, of which every one is a sequence of those statements.
pub mod Statement
pub mod Services
pub mod Actions
pub mod Lifecycle
pub mod Cancelled
