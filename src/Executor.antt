-- ===== src/Executor.antt =====
-- src/modules/executor: the dispatch and cancel workers, the callback guard and its service.
pub mod Dispatch
pub mod Service
pub mod Guard
pub mod Cancel
