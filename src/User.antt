-- ===== src/User.antt =====
-- services/user-service: accounts, and the rate limiter of logins and registrations.
pub mod RateLimit
pub mod Accounts
