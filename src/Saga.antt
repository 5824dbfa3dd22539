-- ===== src/Saga.antt =====
-- The order saga of services/order-service/internal/saga: its state, its steps and the
-- orchestrator, over an environment that stands for the databases, the remote services and time.
pub mod Types
pub mod Env
pub mod Steps
pub mod Retry
pub mod Orchestrator
pub mod Trace
pub mod Invariant
pub mod Forward
pub mod Keeps
pub mod Store
pub mod Guarantees
pub mod Recovery
mod Tests
