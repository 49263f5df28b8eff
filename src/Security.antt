-- ===== src/Security.antt =====
-- app/security.py
pub mod Signature
pub mod Tokens
pub mod Authorization
pub mod Algorithms
pub mod Oidc
