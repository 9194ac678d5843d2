-- ===== src/Webhook.antt =====
-- packages/agent/src/externalWebhookDispatch.ts: the rows of the webhook outbox, their order, and
-- the delivery of one row.
pub mod Model
pub mod Order
pub mod Retry
pub mod Delivery
mod Priorities
mod Guards
mod Deadlines
mod Tests
