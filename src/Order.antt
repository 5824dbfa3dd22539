-- ===== src/Order.antt =====
-- services/order-service/internal/domain, internal/repository and internal/usecase: orders and the
-- changes of their status.
pub mod Status
pub mod Domain
pub mod Repository
pub mod Usecase
pub mod Handler
pub mod Creation
pub mod Updates
pub mod Cancellation
mod Tests
