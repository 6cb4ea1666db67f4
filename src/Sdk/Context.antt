-- ===== src/Sdk/Context.antt =====
-- The parts of `sdk.Context` that a handler reads, and the events that it emits.
use energychain_node.Prelude.{Bytes, List}
use energychain_node.Prelude.Int.{ℤ}

pub record Context : Type 0 where
  pub block_height : ℤ
  -- `ctx.BlockTime().Unix()`
  pub block_time : ℤ
  pub tx_bytes : Bytes

pub record Event : Type 0 where
  pub kind : Bytes
  pub attributes : List (Bytes × Bytes)
