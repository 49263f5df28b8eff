-- ===== src/Services.antt =====
-- The application services (app/services).
pub mod Cursors
pub mod Exec
pub mod Reconciliation
pub mod Redelivery
pub mod Webhooks
pub mod Queries
