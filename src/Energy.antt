-- ===== src/Energy.antt =====
-- The energy module, chain/x/energy: records of off-chain energy data, their batches with a Merkle
-- root, the two secondary indexes, the per-block limit on submissions, and the genesis state.
pub mod Types
pub mod EnergyId
pub mod State
pub mod Keeper
pub mod Merkle
pub mod MsgServer
pub mod Genesis
pub mod Governance
pub mod Acceptance
pub mod Client
pub mod Memory
pub mod Queries
mod Tests
pub mod Invariants
pub mod RateLimit
pub mod Consistency
