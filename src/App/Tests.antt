-- ===== src/App/Tests.antt =====
-- Closing the application at a concrete input: the pool gives an error, and the base app none.
use energychain_node.Prelude.{ℕ, sym, ap, Option, none, some, List, [], ◌∷◌, Bool, true, false}
use energychain_node.Mempool.Broadcast.{Wire, System, idle}
use energychain_node.App.{Running, Closes}
use energychain_node.App.Closed.{IsOpen, IsShut, CanEnd, close-IsShut}

abbrev wire : Wire ℕ ℕ
wire = record {
  Msg = ℕ;
  CosmosTx = ℕ;
  from_signed_ethereum_tx = some;
  build_tx = λ client msg. some msg;
  encode = λ client tx. some (tx ∷ []);
  broadcast_tx_async = λ client bytes. none;
  in_mempool_cache_code = 19;
}

abbrev close_pool : Bool → Option ℕ × Bool
close_pool _ = (some 7, true)

abbrev close_base : Bool → Option ℕ × Bool
close_base _ = (none, true)

abbrev running : Running Bool Bool ℕ ℕ
running = record {
  experimental_pool = some false;
  broadcaster = some (record {
    broadcaster = record { queue = 5 ∷ []; closed = false; client = 0; client_ready = false };
    loop = idle;
    handled = [];
  });
  base = false;
}

running-IsOpen : IsOpen running
running-IsOpen s p =
    ap (λ (o : Option (System ℕ ℕ)). elim o [ none ↦ false | some t ↦ t.broadcaster.closed ])
      (sym p)

close-IsShut_example :
    ((errors : List ℕ) × (a' : Running Bool Bool ℕ ℕ) × Closes wire close_pool close_base running
        errors a')
    × CanEnd wire close_pool close_base running
    × ((errors : List ℕ) (a' : Running Bool Bool ℕ ℕ)
        → Closes wire close_pool close_base running errors a'
        → IsShut wire close_pool close_base running errors a')
close-IsShut_example = close-IsShut wire close_pool close_base running running-IsOpen
