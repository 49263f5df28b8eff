-- ===== src/Storage.antt =====
-- The stores (app/storage).
pub mod Keyset
pub mod Deque
pub mod Deliveries
pub mod RecoveryActions
