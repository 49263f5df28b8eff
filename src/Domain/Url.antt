-- ===== src/Domain/Url.antt =====
-- A parsed URL.
use github_webhook_monitor.Prelude.{String}

-- What the program reads of the result of `urlparse`.
pub record ParsedUrl : Type 0 where
  pub scheme : String
  pub netloc : String
  pub path : String
  pub query : String
  pub fragment : String
