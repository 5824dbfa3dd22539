-- ===== src/Inventory.antt =====
-- services/inventory-service: the stock of the products, and its reservations by orders.
pub mod Tables
pub mod Repository
pub mod Usecase
pub mod Handler
pub mod Effects
pub mod Invariant
pub mod Guarantees
mod Tests
