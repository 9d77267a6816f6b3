-- ===== src/Chains.antt =====
-- The adapters to the chains, internal/adapters/outbound/bitcoin, ethereum and blockchain: the
-- receipt observers.
mod Examples
pub mod Observer
pub mod Bitcoin
pub mod Ethereum
pub mod Router
