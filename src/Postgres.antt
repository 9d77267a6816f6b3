-- ===== src/Postgres.antt =====
-- internal/adapters/outbound/persistence/postgres, over the tables of the database.
mod Samples
pub mod Tables
pub mod Driver
pub mod Reasons
pub mod Due
pub mod Trackings
pub mod Scan
pub mod Outbox
pub mod Allocations
pub mod Keys
pub mod Finder
pub mod Reserve
pub mod History
pub mod Scope
