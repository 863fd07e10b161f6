-- ===== src/Crypto.antt =====
-- Signature keys and transport certificates (internal/crypto/).
pub mod Signature
pub mod Certificate
