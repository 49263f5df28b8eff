-- ===== src/Api.antt =====
-- The HTTP interface (app/api).
pub mod Headers
pub mod Body
pub mod Webhook
pub mod Access
pub mod Redelivery
pub mod Responses
pub mod Queries
pub mod Reconciliation
