-- ===== src/Persistence.antt =====
-- app/persistence: the tables of the schema and the stores on PostgreSQL.
pub mod Schema
pub mod Actions
pub mod Deliveries
