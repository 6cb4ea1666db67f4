-- ===== src/Precompiles.antt =====
-- The precompiles through which Solidity contracts read the modules, chain/precompiles.
pub mod Abi
pub mod Energy
pub mod Identity
pub mod Reads
mod Tests
