-- ===== src/Mempool/Broadcast.antt =====
-- `promotedTxBroadcaster` of chain/mempool_broadcast.go: a bounded queue of transactions, filled by
-- `Enqueue` and emptied by the goroutine `loop`.
use energychain_node.Prelude.{
  ℕ, Bool, true, false, Option, none, some, List, [], ◌∷◌, ◌++◌, ◌||◌, ◌==◌, Bytes, length, ltb,
  eqb, list_eq, ℕ_eq, codes, if◌then◌else◌,
}
use energychain_node.Outcome.{Outcome, ok, panic}

abbrev pub queue_size : ℕ
queue_size = 10000

-- The struct: the channel `queue`, whether `done` is closed, and the client context with its flag.
pub record Broadcaster (Tx Client : Type 0) : Type 0 where
  pub queue : List Tx
  pub closed : Bool
  pub client : Client
  pub client_ready : Bool

pub data EnqueueError : Type 0 where
  queue_full not_configured : EnqueueError

pub record Response : Type 0 where
  pub code : ℕ
  pub raw_log : Bytes

-- What the broadcaster calls of the libraries: each step of the conversion of an Ethereum transaction
-- fails or gives the next form; the node answers with an error or perhaps a response.
pub record Wire (Tx Client : Type 0) : Type 1 where
  pub Msg : Type 0
  pub CosmosTx : Type 0
  pub from_signed_ethereum_tx : Tx → Option Msg
  pub build_tx : Client → Msg → Option CosmosTx
  pub encode : Client → CosmosTx → Option Bytes
  pub broadcast_tx_async : Client → Bytes → Option (Option Response)
  -- `sdkerrors.ErrTxInMempoolCache.ABCICode()`
  pub in_mempool_cache_code : ℕ

pub data BroadcastError : Type 0 where
  not_ready convert_failed build_failed encode_failed send_failed : BroadcastError
  rejected : Response → BroadcastError

module _ {Tx Client : Type 0} where
  -- `newPromotedTxBroadcaster`, on the zero value of the client context.
  unfoldable pub new_broadcaster : Client → Broadcaster Tx Client
  new_broadcaster zero_client = record {
    queue = [];
    closed = false;
    client = zero_client;
    client_ready = false;
  }

  unfoldable pub set_client_ctx : Client → Broadcaster Tx Client → Broadcaster Tx Client
  set_client_ctx client b = record b { client = client; client_ready = true }

  unfoldable pub get_client_ctx : Broadcaster Tx Client → Option Client
  get_client_ctx b = if b.client_ready then some b.client else none

  -- `Enqueue`: a nil transaction is skipped; on a full queue the earlier ones stay.
  unfoldable pub enqueue :
      List (Option Tx) → Broadcaster Tx Client → Option EnqueueError × Broadcaster Tx Client
  enqueue [] b = (none, b)
  enqueue (none ∷ txs) b = enqueue txs b
  enqueue (some tx ∷ txs) b =
      let rest = enqueue txs (record b { queue = b.queue ++ (tx ∷ []) }) in
      if ltb (length b.queue) queue_size then rest else (some queue_full, b)

  -- `close(b.done)`, with which `Close` begins: a panic if `done` is closed.
  unfoldable pub close_done : Broadcaster Tx Client → Outcome EnqueueError (Broadcaster Tx Client)
  close_done b = if b.closed then panic else ok (record b { closed = true })

  -- `broadcastPromotedEVMTxs`, on the app's broadcaster, which may be nil.
  unfoldable pub broadcast_promoted_evm_txs :
      List (Option Tx)
      → Option (Broadcaster Tx Client)
      → Option EnqueueError × Option (Broadcaster Tx Client)
  broadcast_promoted_evm_txs txs none = (some not_configured, none)
  broadcast_promoted_evm_txs txs (some b) = let (error, b1) = enqueue txs b in (error, some b1)

  -- `SetPromotedTxBroadcastClientCtx`
  unfoldable pub set_promoted_tx_broadcast_client_ctx :
      Client → Option (Broadcaster Tx Client) → Option (Broadcaster Tx Client)
  set_promoted_tx_broadcast_client_ctx client none = none
  set_promoted_tx_broadcast_client_ctx client (some b) = some (set_client_ctx client b)

  module _ (w : Wire Tx Client) where
    -- Whether a response leaves the transaction with the node.
    unfoldable pub accepted : Option Response → Bool
    accepted none = true
    accepted (some res) =
        eqb res.code 0
        || eqb res.code w.in_mempool_cache_code
        || res.raw_log == codes "already known"

    -- The rest of `broadcast`, once there is a client context.
    unfoldable pub send : Client → Tx → Option BroadcastError
    send client tx = elim (w.from_signed_ethereum_tx tx) [
      | none ↦ some convert_failed
      | some msg ↦ elim (w.build_tx client msg) [
        | none ↦ some build_failed
        | some cosmos_tx ↦ elim (w.encode client cosmos_tx) [
          | none ↦ some encode_failed
          | some bytes ↦ elim (w.broadcast_tx_async client bytes) [
            | none ↦ some send_failed
            | some none ↦ none
            | some (some res) ↦ if accepted (some res) then none else some (rejected res)
          ]
        ]
      ]
    ]

-- Where the goroutine `loop` stands: at its `select`; in the `select` of `waitForClientCtx`, with the
-- transaction that it took; or after its return.
pub data Loop (Tx : Type 0) : Type 0 where
  idle : Loop Tx
  waiting : Tx → Loop Tx
  stopped : Loop Tx

-- The broadcaster, its goroutine, and the transactions that the goroutine is done with, each with
-- the error that was logged.
pub record System (Tx Client : Type 0) : Type 0 where
  pub broadcaster : Broadcaster Tx Client
  pub loop : Loop Tx
  pub handled : List (Tx × Option BroadcastError)

module _ {Tx Client : Type 0} (w : Wire Tx Client) where
  abbrev pub start : Client → System Tx Client
  start zero_client = record {
    broadcaster = new_broadcaster zero_client;
    loop = idle;
    handled = [];
  }

  abbrev pub done_with : Tx → Option BroadcastError → System Tx Client → System Tx Client
  done_with tx error s = record s { loop = idle; handled = s.handled ++ ((tx, error) ∷ []) }

  -- `broadcast` from a read of the client context on: the goroutine waits while there is none.
  unfoldable pub resume : Tx → Option Client → System Tx Client → System Tx Client
  resume tx none s = record s { loop = waiting tx }
  resume tx (some client) s = done_with tx (send w client tx) s

  -- The case `tx := <-b.queue` of `loop`, on what the queue holds.
  unfoldable pub take_from : List Tx → System Tx Client → System Tx Client
  take_from [] s = s
  take_from (tx ∷ rest) s =
      resume tx (get_client_ctx s.broadcaster)
        (record s { broadcaster = record s.broadcaster { queue = rest } })

  abbrev pub take_next : System Tx Client → System Tx Client
  take_next s = take_from s.broadcaster.queue s

  -- The case `<-ticker.C` of `waitForClientCtx`.
  abbrev pub tick : Tx → System Tx Client → System Tx Client
  tick tx s = resume tx (get_client_ctx s.broadcaster) s
