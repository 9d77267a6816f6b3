-- ===== src/UseCases.antt =====
-- application/usecases: the use cases as actions over the outbound ports.
pub mod Store
pub mod Polling
pub mod Dispatch
pub mod Allocate
pub mod Status
pub mod Policies
