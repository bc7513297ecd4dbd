-- ===== src/Membership.antt =====
-- src/membership: plans, purchases and the periods in which a user is a member.
pub mod Terms
pub mod Periods
pub mod Activation
pub mod Purchases
mod Tests
