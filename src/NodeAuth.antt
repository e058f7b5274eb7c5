-- ===== src/NodeAuth.antt =====
-- common/gateway_auth.py
pub mod Tokens
pub mod Verify
pub mod Issued
mod Tests
