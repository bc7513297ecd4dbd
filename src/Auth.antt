-- ===== src/Auth.antt =====
-- src/auth: the rate limiter, the one-time codes, the passwords and the refresh tokens.
pub mod RateLimit
pub mod Sessions
mod Tests
