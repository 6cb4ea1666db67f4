-- ===== src/Mempool/Tests.antt =====
-- The theorems on the mempool at concrete inputs.
use energychain_node.Prelude.{
  ℕ, ◌+◌, ◌*◌, ◌≤◌, ◌<◌, ◌≡◌, ◌≢◌, ◌⊎◌, refl, ap, true, false, Option, some, none, List, [], ◌∷◌,
  ◌++◌, length, if◌then◌else◌, ltb,
}
use energychain_node.Prelude.Int.{pos}
use energychain_node.Mempool.Broadcast.{
  queue_size, Broadcaster, Wire, queue_full, new_broadcaster, enqueue, System, start, take_next,
  stopped, idle,
}
use energychain_node.Mempool.Enqueue.{present, room, admitted, enqueue-admitted}
use energychain_node.Mempool.Fifo.{
  Act, taken, returned, enqueued, acted, Run, begin, after, contents, Run-Fifo,
}
use energychain_node.Mempool.Shutdown.{here, further, work_left, close-terminates}
use energychain_node.Mempool.Setup.{AppOptions, App, configure_evm_mempool}
use energychain_node.Mempool.Configured.{IsSetUp, configure_evm_mempool-IsSetUp}

-- Transactions and clients are numbers; a node that takes every transaction.
abbrev wire : Wire ℕ ℕ
wire = record {
  Msg = ℕ;
  CosmosTx = ℕ;
  from_signed_ethereum_tx = λ tx. some tx;
  build_tx = λ _ m. some m;
  encode = λ _ m. some (m ∷ []);
  broadcast_tx_async = λ _ _. some (some (record { code = 0; raw_log = [] }));
  in_mempool_cache_code = 19;
}

abbrev offered : List (Option ℕ)
offered = some 4 ∷ none ∷ some 5 ∷ []

abbrev fresh : Broadcaster ℕ ℕ
fresh = record { queue = []; closed = false; client = 0; client_ready = false }

enqueue-admitted_example : enqueue offered fresh ≡ (
  if ltb (room fresh) (length (present offered)) then some queue_full else none,
  record fresh { queue = fresh.queue ++ admitted offered fresh },
)
enqueue-admitted_example = enqueue-admitted offered fresh

abbrev filled : System ℕ ℕ
filled = record (start wire 0) { broadcaster = (enqueue offered (start wire 0).broadcaster).1 }

filled-Run : Run wire 0 (4 ∷ 5 ∷ []) filled
unfolding new_broadcaster
filled-Run = after begin (enqueued offered)

filled_taken : filled.broadcaster.queue ≡ 4 ∷ 5 ∷ []
unfolding new_broadcaster enqueue
filled_taken = refl

Run-Fifo_example :
    (contents (take_next wire filled) ≡ 4 ∷ 5 ∷ [])
    × (length (take_next wire filled).broadcaster.queue ≤ queue_size)
Run-Fifo_example =
    Run-Fifo wire 0 (4 ∷ 5 ∷ []) (take_next wire filled)
      (after filled-Run (acted (taken refl filled_taken)))

abbrev ending : System ℕ ℕ
ending = record {
  broadcaster = record fresh { queue = 5 ∷ []; closed = true };
  loop = idle;
  handled = [];
}

ending_stops : record ending { loop = stopped } ≢ ending
ending_stops e = absurd (cc (ap (λ s. s.loop) e))

close-terminates_example :
    (1 ≤ 2 * length ending.broadcaster.queue + 2)
    × (((record ending { loop = stopped }).loop ≡ stopped)
        ⊎ ((u : System ℕ ℕ) × Act wire (record ending { loop = stopped }) u
            × (work_left u < work_left (record ending { loop = stopped }))))
close-terminates_example =
    close-terminates wire ending (record ending { loop = stopped }) 1 refl
      (further here (returned refl refl) ending_stops)

abbrev options : AppOptions ℕ
options = record {
  cosmos_pool_max_tx = pos 100;
  should_operate_exclusively = false;
  legacy_pool_config = 0;
  block_gas_limit = 1000;
  min_tip = 1;
  pending_tx_proposal_timeout = pos 5;
  mempool_insert_queue_size = 10;
  is_empty = false;
  allow_unsafe_experimental_fallback = some true;
}

abbrev new_app : App ℕ ℕ ℕ
new_app = record {
  ante_handler = 0;
  broadcast_promoted_evm_txs = 0;
  chain_config = true;
  check_tx_handler = none;
  insert_tx_handler = none;
  reap_txs_handler = none;
  prepare_proposal = none;
  evm_mempool = none;
  mempool = none;
}

configure_evm_mempool-IsSetUp_example :
    IsSetUp options new_app (configure_evm_mempool options new_app)
configure_evm_mempool-IsSetUp_example =
    configure_evm_mempool-IsSetUp options new_app refl
      (record { pools = refl; proposals = refl; insertions = refl; reaping = refl; checks = refl })
