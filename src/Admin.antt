-- ===== src/Admin.antt =====
-- src/admin: what the back office does to reservations, inventory and prices.
pub mod Reservations
pub mod Inventory
pub mod RatePlans
mod Tests
