-- ===== src/Tests.antt =====
-- The theorems at concrete inputs.
mod Data
mod ActionTable
mod AttemptTable
mod Persistence
mod Storage
mod Security
mod Reconciliation
mod Redelivery
mod Requests
mod Texts
mod Webhooks
mod Oidc
mod Assembly
mod Queries
