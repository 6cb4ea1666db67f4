-- ===== src/Audit.antt =====
-- The audit module, chain/x/audit: an append-only log with three indexes and a limit per block.
pub mod Types
pub mod State
pub mod Keeper
pub mod MsgServer
pub mod Invariants
pub mod Genesis
pub mod Written
pub mod Ledger
pub mod Sound
pub mod Restore
pub mod Reimport
pub mod Governance
pub mod RateLimit
pub mod Append
pub mod Queries
mod Tests
