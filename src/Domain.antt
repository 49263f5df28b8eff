-- ===== src/Domain.antt =====
-- The values that the parts of the program exchange (app/domain).
pub mod Json
pub mod Datetime
pub mod Url
pub mod Deliveries
pub mod Management
pub mod RecoveryActions
