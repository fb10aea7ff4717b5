-- ===== src/Delivery.antt =====
-- src/modules/delivery: the event log, its repository, the SSE streams and the webhooks.
pub mod Schema
pub mod Events
pub mod Sse
pub mod StreamController
pub mod Webhook
