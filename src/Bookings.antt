-- ===== src/Bookings.antt =====
-- src/bookings/bookings.service.ts and booking-maintenance.service.ts: creating, extending, expiring
-- and completing reservations. The clock, the ids of new rows and the random reservation numbers are
-- arguments.
pub mod Create
pub mod Extend
pub mod Sweep
mod Tests
