-- ===== src/Integrations.antt =====
-- The GitHub REST API boundary (app/integrations/github).
pub mod GitHub
