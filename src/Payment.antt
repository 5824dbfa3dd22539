-- ===== src/Payment.antt =====
-- services/payment-service: payments of orders, and their refunds.
pub mod Tables
pub mod Repository
pub mod Usecase
pub mod Handler
pub mod Effects
pub mod Invariant
pub mod Guarantees
mod Tests
