-- ===== src/Ports.antt =====
-- internal/application/ports: the records that cross a port, the outbound validation, and the
-- ports themselves as records of operations over a world that the caller chooses.
pub mod Error
pub mod Validation
pub mod Delivery
pub mod Records
pub mod Stores
pub mod Outside
pub mod World
mod Examples
