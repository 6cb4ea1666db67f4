-- ===== src/Oracle.antt =====
-- The oracle module, chain/x/oracle: datapoints that authorized oracles submit, as a history by
-- category and time and as the latest value of a category.
pub mod Types
pub mod State
pub mod Keeper
pub mod MsgServer
pub mod Invariants
pub mod Genesis
pub mod Latest
pub mod Export
pub mod Queries
mod Tests
