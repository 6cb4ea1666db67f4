-- ===== src/Identity.antt =====
-- The identity module, chain/x/identity: participants with a role, registered and revoked by the
-- admin, with an index by role.
pub mod Types
pub mod State
pub mod Keeper
pub mod MsgServer
pub mod Invariants
pub mod Genesis
pub mod Lifecycle
pub mod Access
pub mod Memory
pub mod Queries
mod Tests
