-- ===== src/Tasks.antt =====
-- src/modules/tasks: the tasks table, its repository and the tasks service.
pub mod Schema
pub mod Repository
pub mod Service
pub mod Controller
