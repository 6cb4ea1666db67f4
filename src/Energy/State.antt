-- ===== src/Energy/State.antt =====
-- The `Keeper` struct of chain/x/energy/keeper/keeper.go: the collections that it is given, and the
-- state that they hold.
use energychain_node.Prelude.{List, Bytes}
use energychain_node.Sdk.Store.{Store, Sequence, RawStore}
use energychain_node.Sdk.Context.{Event}
use energychain_node.Energy.Types.{Params, EnergyData, BatchSubmission, ParamsError}

pub record Keeper : Type 1 where
  pub authority : Bytes
  pub params : Store (Unit {0}) Params
  pub id_sequence : Sequence
  pub energy_data : Store Bytes EnergyData
  pub by_category : Store (Bytes × Bytes) (Unit {0})
  pub by_submitter : Store (Bytes × Bytes) (Unit {0})
  pub batches : Store Bytes BatchSubmission
  -- the transient store under `tStoreKey`
  pub transient : RawStore

pub record State ⦃k : Keeper⦄ : Type 0 where
  pub params : k.params.Carrier
  pub id_sequence : k.id_sequence.Carrier
  pub energy_data : k.energy_data.Carrier
  pub by_category : k.by_category.Carrier
  pub by_submitter : k.by_submitter.Carrier
  pub batches : k.batches.Carrier
  pub submit_counts : k.transient.Carrier
  pub events : List Event

-- The errors that the module returns; a wrapped error is named by its cause.
pub data Error : Type 0 where
  not_allowed_submitter metadata_too_large submission_limit batch_too_large : Error
  no_items merkle_root_mismatch invalid_authority : Error
  store_energy_data index_by_category index_by_submitter store_batch store_params : Error
  invalid_params : ParamsError → Error
