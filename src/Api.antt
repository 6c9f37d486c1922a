-- ===== src/Api.antt =====
-- The API's gates in api/: tokens of the management routes, signatures of webhooks.
pub mod Webhook
pub mod Access
