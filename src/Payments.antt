-- ===== src/Payments.antt =====
-- src/payments: applying payment outcomes to reservations.
pub mod Lock
pub mod Confirmation
pub mod Sessions
mod Tests
