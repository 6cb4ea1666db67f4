-- ===== src/App.antt =====
-- The life of the application in chain/app.go: what it does at genesis, on a pending transaction and
-- when it is closed. The module manager, the pools and the base app are parameters.
mod Closed
mod Tests
use energychain_node.Prelude.{
  ◌≡◌, Bool, true, false, Option, none, some, List, [], ◌∷◌, ◌++◌, Bytes, ◌==◌, list_eq, ℕ_eq,
  if◌then◌else◌,
}
use energychain_node.Outcome.{Outcome, ok, err, panic, Exec, ◌>>=◌, ◌>>◌, lift, some_or, or_panic}
use energychain_node.Mempool.Broadcast.{Broadcaster, Wire, System, stopped, close_done}
use energychain_node.Mempool.Closing.{Steps}

-- `onPendingTx`: the calls of the listeners, in the order in which they were registered.
abbrev pub on_pending_tx :
    {Listener Hash Call : Type 0} → (Listener → Hash → Call) → List Listener → Hash → List Call
on_pending_tx call [] hash = []
on_pending_tx call (l ∷ ls) hash = call l hash ∷ on_pending_tx call ls hash

-- `RegisterPendingTxListener`
abbrev pub register_pending_tx_listener :
    {Listener : Type 0} → Listener → List Listener → List Listener
register_pending_tx_listener listener ls = ls ++ listener ∷ []

-- `genesis[name] = state`, on a map from the names of modules.
abbrev pub set_genesis :
    {Json : Type 0} → Bytes → Json → (Bytes → Option Json) → Bytes → Option Json
set_genesis name state genesis other = if name == other then some state else genesis other

-- The chain's own default states, by the names that the libraries give their modules.
pub record OwnGenesis (Json : Type 0) : Type 0 where
  pub mint : Bytes × Json
  pub evm : Bytes × Json
  pub erc20 : Bytes × Json
  pub fee_market : Bytes × Json

unfoldable pub default_genesis :
    {Json : Type 0} → OwnGenesis Json → (Bytes → Option Json) → Bytes → Option Json
default_genesis own genesis = set_genesis own.fee_market.0 own.fee_market.1 (
    set_genesis own.erc20.0 own.erc20.1
      (set_genesis own.evm.0 own.evm.1 (set_genesis own.mint.0 own.mint.1 genesis)))

-- What `InitChainer` calls.
pub record Manager (E State Genesis Response : Type 0) : Type 0 where
  -- `json.Unmarshal`
  pub unmarshal : Bytes → Option Genesis
  -- `SetModuleVersionMap`, with the manager's version map
  pub set_module_version_map : Exec E State (Unit {0})
  pub init_genesis : Genesis → Exec E State Response

unfoldable pub init_chainer :
    {E State Genesis Response : Type 0}
    → Manager E State Genesis Response
    → Bytes
    → Exec E State Response
init_chainer m app_state_bytes s = elim (m.unmarshal app_state_bytes) [
  | none ↦ (panic, s)
  | some genesis ↦ (or_panic m.set_module_version_map >> m.init_genesis genesis) s
]

-- What `Close` closes: the pool, if it is the experimental one, the broadcaster with its goroutine, if
-- there is one, and the base app.
pub record Running (Pool Base Tx Client : Type 0) : Type 0 where
  pub experimental_pool : Option Pool
  pub broadcaster : Option (System Tx Client)
  pub base : Base

-- `errors.Join`, as the list of the errors that are not nil.
abbrev pub join : {E : Type 0} → List E → Option E → List E
join errors none = errors
join errors (some e) = errors ++ e ∷ []

abbrev pub pool_closed :
    {E Pool : Type 0} → (Pool → Option E × Pool) → Option Pool → List E × Option Pool
pool_closed close_pool none = ([], none)
pool_closed close_pool (some p) = let r = close_pool p in (join [] r.0, some r.1)

module _ {E Pool Base Tx Client : Type 0} where
  -- The broadcaster's `Close` up to its wait.
  abbrev pub after_done :
      {F : Type 0}
      → List E
      → System Tx Client
      → Outcome F (Broadcaster Tx Client)
      → Exec (List E) (Running Pool Base Tx Client) (List E)
  after_done errors s (ok b) a =
      (ok errors, record a { broadcaster = some (record s { broadcaster = b }) })
  after_done errors s (err e) a = (panic, a)
  after_done errors s panic a = (panic, a)

  abbrev pub begin_broadcaster :
      List E → Option (System Tx Client) → Exec (List E) (Running Pool Base Tx Client) (List E)
  begin_broadcaster errors none a = (ok errors, a)
  begin_broadcaster errors (some s) a = after_done errors s (close_done s.broadcaster) a

  -- `Close` up to the wait for the goroutine of the broadcaster, with the errors so far.
  unfoldable pub begin_close :
      (Pool → Option E × Pool) → Exec (List E) (Running Pool Base Tx Client) (List E)
  begin_close close_pool a =
      let p = pool_closed close_pool a.experimental_pool in
      begin_broadcaster p.0 a.broadcaster (record a { experimental_pool = p.1 })

  -- The rest of `Close` after the wait.
  unfoldable pub finish_close :
      (Base → Option E × Base)
      → List E
      → Running Pool Base Tx Client
      → List E × Running Pool Base Tx Client
  finish_close close_base errors a =
      let r = close_base a.base in (join errors r.0, record a { base = r.1 })

-- The wait: there is none without a broadcaster; else the goroutine comes to its return, while anyone
-- may use the broadcaster.
pub data Awaits {Pool Base Tx Client : Type 0} (w : Wire Tx Client)
    (a a' : Running Pool Base Tx Client) : Type 0 where
  no_broadcaster : a.broadcaster ≡ none → a' ≡ a → Awaits w a a'
  loop_ended :
      (s t : System Tx Client)
      → a.broadcaster ≡ some s
      → Steps w s t
      → t.loop ≡ stopped
      → a' ≡ record a { broadcaster = some t }
      → Awaits w a a'

-- `Close` on `a` returns the errors and leaves `a'`.
pub record Closes {E Pool Base Tx Client : Type 0} (w : Wire Tx Client)
    (close_pool : Pool → Option E × Pool) (close_base : Base → Option E × Base)
    (a : Running Pool Base Tx Client) (errors : List E) (a' : Running Pool Base Tx Client)
    : Type 0 where
  pub begun : List E
  pub waited : Running Pool Base Tx Client
  pub begins : (begin_close close_pool a).0 ≡ ok begun
  pub waits : Awaits w (begin_close close_pool a).1 waited
  pub finishes : (errors, a') ≡ finish_close close_base begun waited
