-- ===== src/Oracle/State.antt =====
-- The `Keeper` struct of chain/x/oracle/keeper/keeper.go: the collections that it is given, and the
-- state that they hold.
use energychain_node.Prelude.{ℕ, ◌≤◌, ◌<◌, ◌≡◌, List, Bytes, In, Bool}
use energychain_node.Sdk.Store.{Store, found}
use energychain_node.Sdk.Context.{Event}
use energychain_node.Oracle.Types.{Params, OracleInfo, OracleData, ParamsError}

pub record Keeper : Type 1 where
  pub authority : Bytes
  -- `sdk.AccAddressFromBech32` gives no error
  pub valid_address : Bytes → Bool
  pub params : Store (Unit {0}) Params
  pub oracles : Store Bytes OracleInfo
  -- the history, by category and time
  pub history : Store (Bytes × ℕ) OracleData
  pub latest_data : Store Bytes OracleData
  -- what `Walk` visits of one category, from one time on and before another, in order
  pub walk_range : history.Carrier → Bytes → ℕ → ℕ → List ((Bytes × ℕ) × OracleData)
  pub walk_range_sound :
      (m : history.Carrier) (c : Bytes) (first last : ℕ) (key : Bytes × ℕ) (d : OracleData)
      → In (key, d) (walk_range m c first last)
      → (key.0 ≡ c) × (first ≤ key.1) × (key.1 < last) × (history.get m key ≡ found d)

pub record State ⦃k : Keeper⦄ : Type 0 where
  pub params : k.params.Carrier
  pub oracles : k.oracles.Carrier
  pub history : k.history.Carrier
  pub latest_data : k.latest_data.Carrier
  pub events : List Event

-- The errors that the module returns; a wrapped error is named by its cause.
pub data Error : Type 0 where
  not_authorized metadata_too_large too_far_future too_far_past unauthorized oracle_not_found :
      Error
  store_history store_latest store_oracle store_params : Error
  invalid_params : ParamsError → Error
