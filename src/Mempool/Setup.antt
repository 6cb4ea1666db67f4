-- ===== src/Mempool/Setup.antt =====
-- The set-up of the mempool and the handlers of chain/mempool.go, and the verifier of
-- chain/tx_verifier.go.
use energychain_node.Prelude.{ℕ, Bool, Option, none, some, Bytes, if◌then◌else◌, not}
use energychain_node.Prelude.Int.{ℤ, pos, ltb_ℤ}

-- The options that the set-up reads, as the getters of the EVM library's server answer.
pub record AppOptions (LegacyPool : Type 0) : Type 0 where
  pub cosmos_pool_max_tx : ℤ
  pub should_operate_exclusively : Bool
  pub legacy_pool_config : LegacyPool
  pub block_gas_limit : ℕ
  pub min_tip : ℕ
  pub pending_tx_proposal_timeout : ℤ
  pub mempool_insert_queue_size : ℕ
  -- whether the options are `simtestutil.EmptyAppOptions`
  pub is_empty : Bool
  -- `energychain.mempool.allow-unsafe-experimental-fallback`, where it is set to a bool
  pub allow_unsafe_experimental_fallback : Option Bool

pub record EvmMempoolConfig (AnteHandler BroadcastFn LegacyPool : Type 0) : Type 0 where
  pub ante_handler : AnteHandler
  pub legacy_pool_config : LegacyPool
  pub broadcast_tx_fn : BroadcastFn
  pub block_gas_limit : ℕ
  pub min_tip : ℕ

pub record KrakatoaMempoolConfig (AnteHandler BroadcastFn LegacyPool : Type 0) : Type 0 where
  pub evm_mempool_config : EvmMempoolConfig AnteHandler BroadcastFn LegacyPool
  pub pending_tx_proposal_timeout : ℤ
  pub insert_queue_size : ℕ

-- A mempool of the EVM library, by what it is made from.
pub data Pool (AnteHandler BroadcastFn LegacyPool : Type 0) : Type 0 where
  krakatoa :
      KrakatoaMempoolConfig AnteHandler BroadcastFn LegacyPool
      → ℤ
      → Pool AnteHandler BroadcastFn LegacyPool
  experimental :
      EvmMempoolConfig AnteHandler BroadcastFn LegacyPool
      → ℤ
      → Pool AnteHandler BroadcastFn LegacyPool

-- What verifies the transactions of a proposal: `NoCheckProposalTxVerifier` or the app itself.
pub data Verifier : Type 0 where
  no_check checked_by_app : Verifier

pub data SetupError : Type 0 where
  fallback_disabled : SetupError

-- The fields of the app that the set-up reads and writes; each handler is named by its pool.
pub record App (AnteHandler BroadcastFn LegacyPool : Type 0) : Type 0 where
  pub ante_handler : AnteHandler
  pub broadcast_promoted_evm_txs : BroadcastFn
  -- whether `evmtypes.GetChainConfig()` is set
  pub chain_config : Bool
  pub check_tx_handler : Option (Pool AnteHandler BroadcastFn LegacyPool)
  pub insert_tx_handler : Option (Pool AnteHandler BroadcastFn LegacyPool)
  pub reap_txs_handler : Option (Pool AnteHandler BroadcastFn LegacyPool)
  pub prepare_proposal : Option (Pool AnteHandler BroadcastFn LegacyPool × Verifier)
  pub evm_mempool : Option (Pool AnteHandler BroadcastFn LegacyPool)
  pub mempool : Option (Pool AnteHandler BroadcastFn LegacyPool)

module _ {LegacyPool : Type 0} where
  -- `allowExperimentalFallback`
  unfoldable pub allow_experimental_fallback : AppOptions LegacyPool → Bool
  allow_experimental_fallback opts = elim opts.allow_unsafe_experimental_fallback [
    | some allowed ↦ allowed
    | none ↦ opts.is_empty
  ]

module _ {AnteHandler BroadcastFn LegacyPool : Type 0} where
  unfoldable pub create_mempool_config :
      App AnteHandler BroadcastFn LegacyPool
      → AppOptions LegacyPool
      → EvmMempoolConfig AnteHandler BroadcastFn LegacyPool
  create_mempool_config app opts = record {
    ante_handler = app.ante_handler;
    legacy_pool_config = opts.legacy_pool_config;
    broadcast_tx_fn = app.broadcast_promoted_evm_txs;
    block_gas_limit = opts.block_gas_limit;
    min_tip = opts.min_tip;
  }

  unfoldable pub create_krakatoa_mempool_config :
      App AnteHandler BroadcastFn LegacyPool
      → AppOptions LegacyPool
      → KrakatoaMempoolConfig AnteHandler BroadcastFn LegacyPool
  create_krakatoa_mempool_config app opts = record {
    evm_mempool_config = create_mempool_config app opts;
    pending_tx_proposal_timeout = opts.pending_tx_proposal_timeout;
    insert_queue_size = opts.mempool_insert_queue_size;
  }

  -- The two branches of `configureEVMMempool`, on the pool that each makes.
  unfoldable pub use_krakatoa :
      Pool AnteHandler BroadcastFn LegacyPool
      → App AnteHandler BroadcastFn LegacyPool
      → App AnteHandler BroadcastFn LegacyPool
  use_krakatoa pool app = record app {
    insert_tx_handler = some pool;
    reap_txs_handler = some pool;
    prepare_proposal = some (pool, no_check);
    evm_mempool = some pool;
    mempool = some pool;
  }

  unfoldable pub use_experimental :
      Pool AnteHandler BroadcastFn LegacyPool
      → App AnteHandler BroadcastFn LegacyPool
      → App AnteHandler BroadcastFn LegacyPool
  use_experimental pool app = record app {
    check_tx_handler = some pool;
    prepare_proposal = some (pool, checked_by_app);
    evm_mempool = some pool;
    mempool = some pool;
  }

  unfoldable pub configure_evm_mempool :
      AppOptions LegacyPool
      → App AnteHandler BroadcastFn LegacyPool
      → Option SetupError × App AnteHandler BroadcastFn LegacyPool
  configure_evm_mempool opts app =
      if not app.chain_config
      then (none, app)
      else if ltb_ℤ opts.cosmos_pool_max_tx (pos 0)
      then (none, app)
      else if opts.should_operate_exclusively
      then (
        none,
        use_krakatoa (krakatoa (create_krakatoa_mempool_config app opts) opts.cosmos_pool_max_tx)
            app,
      )
      else if not (allow_experimental_fallback opts)
      then (some fallback_disabled, app)
      else (
        none,
        use_experimental (experimental (create_mempool_config app opts) opts.cosmos_pool_max_tx)
            app,
      )

-- What the handlers call of the libraries. An insertion changes the pool and may fail.
pub record Node (Tx PoolState Txs : Type 0) : Type 1 where
  pub InsertError : Type 0
  pub tx_decode : Bytes → Option Tx
  pub tx_encode : Tx → Option Bytes
  pub insert_async : Tx → PoolState → Option InsertError × PoolState
  -- `errors.Is(err, evmmempool.ErrQueueFull)`
  pub is_queue_full : InsertError → Bool
  pub reap_new_valid_txs : ℕ → ℕ → PoolState → Option Txs × PoolState
  -- `abci.CodeTypeOK` and `abci.CodeTypeRetry`
  pub code_type_ok : ℕ
  pub code_type_retry : ℕ

abbrev pub code_type_no_retry : ℕ
code_type_no_retry = 1

module _ {Tx PoolState Txs : Type 0} (n : Node Tx PoolState Txs) where
  unfoldable pub insert_code : Option n.InsertError → ℕ
  insert_code none = n.code_type_ok
  insert_code (some e) = if n.is_queue_full e then n.code_type_retry else code_type_no_retry

  -- The function of `NewInsertTxHandler`: the code of the response, or `none` on an error.
  unfoldable pub insert_tx : Bytes → PoolState → Option ℕ × PoolState
  insert_tx tx_bytes pool = elim (n.tx_decode tx_bytes) [
    | none ↦ (none, pool)
    | some tx ↦ let (error, pool1) = n.insert_async tx pool in (some (insert_code error), pool1)
  ]

  -- The function of `NewReapTxsHandler`.
  unfoldable pub reap_txs : ℕ → ℕ → PoolState → Option Txs × PoolState
  reap_txs max_bytes max_gas pool = n.reap_new_valid_txs max_bytes max_gas pool

  -- `NoCheckProposalTxVerifier.PrepareProposalVerifyTx`
  unfoldable pub prepare_proposal_verify_tx : Tx → Option Bytes
  prepare_proposal_verify_tx tx = n.tx_encode tx
