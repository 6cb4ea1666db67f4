-- ===== src/Precompiles/Energy.antt =====
-- chain/precompiles/energy: energy.go and methods.go.
use energychain_node.Prelude.{
  ℕ, Bool, true, false, Option, none, some, List, [], ◌∷◌, Bytes, codes, length, take, ltb, ◌==◌,
  list_eq, ℕ_eq, if◌then◌else◌,
}
use energychain_node.Prelude.Int.{ℤ, pos}
use energychain_node.Outcome.{Outcome, err}
use energychain_node.Energy.Types.{EnergyData}
use energychain_node.Energy.State.{Keeper, State}
use energychain_node.Energy.Keeper.{get_energy_data}
use energychain_node.Precompiles.Abi.{
  Abi, Arg, string, address, other, Error, setup_failed, unknown_method, wrong_arity, not_string,
  packed,
}

abbrev pub get_energy_data_method : Bytes
get_energy_data_method = codes "getEnergyData"

abbrev pub gas_get_energy_data : ℕ
gas_get_energy_data = 5000

pub record EnergyDataOut : Type 0 where
  pub id : Bytes
  pub category : Bytes
  pub submitter : Bytes
  pub data_hash : Bytes
  pub metadata : Bytes
  pub block_height : ℤ
  pub timestamp : ℤ

-- The output for a record, and for the zero record that comes with a lookup that finds nothing.
abbrev pub energy_data_out : EnergyData → EnergyDataOut
energy_data_out d = record {
  id = d.id;
  category = d.category;
  submitter = d.submitter;
  data_hash = d.data_hash;
  metadata = d.metadata;
  block_height = d.block_height;
  timestamp = d.timestamp;
}

abbrev pub zero_energy_data : EnergyData
zero_energy_data = record {
  id = [];
  category = [];
  submitter = [];
  data_hash = [];
  metadata = [];
  block_height = pos 0;
  timestamp = pos 0;
}

-- `IsTransaction`
abbrev pub is_transaction : Bytes → Bool
is_transaction _ = false

-- The switch of `RequiredGas`.
abbrev pub method_gas : Bytes → ℕ
method_gas name = if name == get_energy_data_method then gas_get_energy_data else 0

module _ ⦃k : Keeper⦄ (pack : EnergyDataOut → Bool → Option Bytes) where
  abbrev pub looked_up : Option EnergyData → Outcome Error Bytes
  looked_up none = packed (pack (energy_data_out zero_energy_data) false)
  looked_up (some d) = packed (pack (energy_data_out d) true)

  unfoldable pub get_energy_data_call : State → List Arg → Outcome Error Bytes
  get_energy_data_call s (string id ∷ []) = looked_up (get_energy_data s id)
  get_energy_data_call s (address a ∷ []) = err not_string
  get_energy_data_call s (other ∷ []) = err not_string
  get_energy_data_call s _ = err wrong_arity

module _ (abi : Abi) where
  unfoldable pub required_gas : Bytes → ℕ
  required_gas input =
      if ltb (length input) 4
      then 0
      else elim (abi.method_by_id (take 4 input)) [ none ↦ 0 | some name ↦ method_gas name ]

  module _ ⦃k : Keeper⦄ (pack : EnergyDataOut → Bool → Option Bytes) where
    unfoldable pub execute : State → abi.Contract → Bool → Outcome Error Bytes
    execute s contract read_only = elim (abi.setup_abi is_transaction contract read_only) [
      | none ↦ err setup_failed
      | some (name, args) ↦
          let result = get_energy_data_call pack s args in
          if name == get_energy_data_method then result else err unknown_method
    ]
