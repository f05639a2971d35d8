-- ===== src/Auth.antt =====
-- Authentication (apps/shop/src/auth).
pub mod Permissions
pub mod Opaque
pub mod Tokens
pub mod Service
mod Tests
