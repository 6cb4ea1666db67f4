-- ===== src/Mempool.antt =====
-- The broadcast of promoted EVM transactions, chain/mempool_broadcast.go, and the mempool's handlers
-- and set-up, chain/mempool.go.
pub mod Broadcast
pub mod Setup
pub mod Configured
pub mod Enqueue
pub mod Fifo
pub mod Shutdown
pub mod Closing
mod Tests
