-- ===== src/Energy/Genesis.antt =====
-- `InitGenesis` and `ExportGenesis` of chain/x/energy/keeper/keeper.go, and the checks on a genesis
-- state and on messages in chain/x/energy/types.
pub mod Validated
pub mod Restore
pub mod Consistent
pub mod Reimport
mod Tests
use energychain_node.Prelude.{
  listed, exceeds, ℕ, Bool, false, Option, none, some, List, [], ◌∷◌, Bytes, ltb, eqb, length, ◌||◌,
  ◌==◌, list_eq, ℕ_eq, if◌then◌else◌,
}
use energychain_node.Outcome.{Exec, ◌>>◌, pure}
use energychain_node.Energy.Types.{
  EnergyData, BatchSubmission, BatchItem, GenesisState, MsgSubmitEnergyData, MsgBatchSubmit,
  MsgUpdateParams, default_params, validate, ParamsError,
}
use energychain_node.Energy.EnergyId.{parse_energy_id}
use energychain_node.Energy.State.{Keeper, State, Error}
use energychain_node.Energy.Keeper as EnergyKeeper
use energychain_node.Energy.Invariants.{raise_to}

abbrev pub default_genesis : GenesisState
default_genesis = record { params = default_params; data_records = []; batches = []; next_id = 0 }

pub data GenesisError : Type 0 where
  invalid_params : ParamsError → GenesisError
  data_empty_id data_duplicate data_empty_category data_empty_hash : GenesisError
  data_empty_submitter data_metadata_too_large : GenesisError
  batch_empty_id batch_duplicate : GenesisError

-- The loop over the records, on the identifiers met so far.
unfoldable pub validate_records : ℕ → List Bytes → List EnergyData → Option GenesisError
validate_records cap ids [] = none
validate_records cap ids (d ∷ rest) =
    let later = validate_records cap (d.id ∷ ids) rest in
    if d.id == []
    then some data_empty_id
    else if listed d.id ids
    then some data_duplicate
    else if d.category == []
    then some data_empty_category
    else if d.data_hash == []
    then some data_empty_hash
    else if d.submitter == []
    then some data_empty_submitter
    else if exceeds d.metadata cap
    then some data_metadata_too_large
    else later

unfoldable pub validate_batches : List Bytes → List BatchSubmission → Option GenesisError
validate_batches ids [] = none
validate_batches ids (b ∷ rest) =
    let later = validate_batches (b.id ∷ ids) rest in
    if b.id == []
    then some batch_empty_id
    else if listed b.id ids
    then some batch_duplicate
    else later

-- `GenesisState.Validate`
unfoldable pub validate_genesis : GenesisState → Option GenesisError
validate_genesis gs = elim (validate gs.params) [
  | some e ↦ some (invalid_params e)
  | none ↦ elim (validate_records gs.params.max_metadata_size [] gs.data_records) [
    | some e ↦ some e
    | none ↦ validate_batches [] gs.batches
  ]
]

-- `highest` after the two loops of `InitGenesis`.
unfoldable pub highest_data : ℕ → List EnergyData → ℕ
highest_data highest [] = highest
highest_data highest (d ∷ rest) = highest_data (raise_to highest (parse_energy_id d.id)) rest

unfoldable pub highest_batch : ℕ → List BatchSubmission → ℕ
highest_batch highest [] = highest
highest_batch highest (b ∷ rest) = highest_batch (raise_to highest (parse_energy_id b.id)) rest

module _ ⦃k : Keeper⦄ where
  unfoldable pub restore_data : List EnergyData → Exec Error State (Unit {0})
  restore_data [] = pure tt
  restore_data (d ∷ rest) = do EnergyKeeper.submit_energy_data d; restore_data rest

  unfoldable pub restore_batches : List BatchSubmission → Exec Error State (Unit {0})
  restore_batches [] = pure tt
  restore_batches (b ∷ rest) = do EnergyKeeper.submit_batch b; restore_batches rest

  unfoldable pub init_genesis : GenesisState → Exec Error State (Unit {0})
  unfolding restore_data restore_batches highest_data highest_batch
  init_genesis gs = do
    EnergyKeeper.set_params gs.params
    restore_data gs.data_records
    restore_batches gs.batches
    let highest = highest_batch (highest_data gs.next_id gs.data_records) gs.batches in
        if ltb 0 highest then EnergyKeeper.set_current_id highest else pure tt

  unfoldable pub export_genesis : State → GenesisState
  export_genesis s = record {
    params = EnergyKeeper.get_params s;
    data_records = EnergyKeeper.get_all_data_unbounded s;
    batches = EnergyKeeper.get_all_batches_unbounded s;
    next_id = EnergyKeeper.get_current_id s;
  }

pub data MsgError : Type 0 where
  invalid_address empty_category empty_data_hash empty_items empty_root : MsgError
  invalid_msg_params : ParamsError → MsgError

-- The `ValidateBasic` methods. Whether `sdk.AccAddressFromBech32` takes an address is a parameter.
module _ (valid_address : Bytes → Bool) where
  unfoldable pub validate_basic_submit : MsgSubmitEnergyData → Option MsgError
  validate_basic_submit msg =
      if valid_address msg.submitter
      then if msg.category == []
        then some empty_category
        else if msg.data_hash == []
        then some empty_data_hash
        else none
      else some invalid_address

  abbrev pub empty_item : List BatchItem → Bool
  empty_item [] = false
  empty_item (item ∷ rest) = item.data_hash == [] || empty_item rest

  unfoldable pub validate_basic_batch : MsgBatchSubmit → Option MsgError
  validate_basic_batch msg =
      if valid_address msg.submitter
      then if msg.category == []
        then some empty_category
        else if eqb (length msg.items) 0
        then some empty_items
        else if msg.merkle_root == []
        then some empty_root
        else if empty_item msg.items
        then some empty_data_hash
        else none
      else some invalid_address

  unfoldable pub validate_basic_update_params : MsgUpdateParams → Option MsgError
  validate_basic_update_params msg =
      if valid_address msg.authority
      then elim (validate msg.params) [ some e ↦ some (invalid_msg_params e) | none ↦ none ]
      else some invalid_address
