-- ===== src/Common.antt =====
-- src/common: what every request passes through, and libs/logger.
pub mod ExceptionFilter
pub mod HttpLogger
pub mod ApiKey
pub mod RequestId
pub mod AppLogger
pub mod Parse
