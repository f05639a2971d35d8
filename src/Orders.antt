-- ===== src/Orders.antt =====
-- The orders domain of the shop (apps/shop/src/orders).
pub mod Model
pub mod Rules
pub mod Stock
pub mod Command
pub mod Processing
pub mod Queries
pub mod Lifecycle
pub mod Tests
