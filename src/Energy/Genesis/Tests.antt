-- ===== src/Energy/Genesis/Tests.antt =====
-- The import of a genesis state at a concrete input.
use energychain_node.Prelude.{
  ◌≡◌, refl, none, arith, eq_iff, [], ◌∷◌, codes, list_eq, ℕ_eq, pair_eq, unit_eq,
}
use energychain_node.Prelude.Int.{pos}
use energychain_node.Outcome.{ok}
use energychain_node.Energy.Types.{GenesisState, default_params, validate}
use energychain_node.Energy.EnergyId.{parse_energy_id, parse_digits}
use energychain_node.Energy.Keeper as EnergyKeeper
use energychain_node.Energy.Memory.{memory, empty_state}
use energychain_node.Energy.Consistency.{IsConsistent}
use energychain_node.Energy.Genesis.{
  init_genesis, export_genesis, restore_data, restore_batches, validate_genesis, validate_records,
  validate_batches, highest_data, highest_batch,
}
use energychain_node.Energy.Genesis.Restore.{IsBlank, HasAll, highest}
use energychain_node.Energy.State.{State}
use energychain_node.Energy.Genesis.Reimport.{
  IsExportable, IsCopy, init_genesis-export_genesis-IsCopy,
}
use energychain_node.Energy.Genesis.Consistent.{init_genesis-IsConsistent}

-- A record, and a batch with a higher number.
abbrev saved : GenesisState
saved = record {
  params = default_params;
  data_records =
      record {
        id = codes "energy-5";
        category = codes "solar";
        submitter = codes "meter";
        data_hash = codes "hash";
        metadata = [];
        block_height = pos 3;
        timestamp = pos 100;
      }
      ∷ [];
  batches =
      record {
        id = codes "energy-9";
        submitter = codes "meter";
        category = codes "solar";
        data_count = 1;
        merkle_root = codes "root";
        timestamp = pos 100;
      }
      ∷ [];
  next_id = 7;
}

blank : IsBlank empty_state
blank = record {
  sequence = refl;
  energy_data = refl;
  by_category = refl;
  by_submitter = refl;
  batches = refl;
}

saved_valid : validate_genesis saved ≡ none
unfolding validate_genesis validate_records validate_batches validate
saved_valid = refl

saved_imported : (init_genesis saved empty_state).0 ≡ ok tt
unfolding init_genesis restore_data restore_batches EnergyKeeper.set_params
    EnergyKeeper.submit_energy_data EnergyKeeper.submit_batch EnergyKeeper.set_current_id
    highest_data highest_batch parse_energy_id parse_digits
saved_imported = refl

init_genesis-IsConsistent_example :
    IsConsistent (highest saved) (init_genesis saved empty_state).1
    × HasAll saved (init_genesis saved empty_state).1
init_genesis-IsConsistent_example =
    init_genesis-IsConsistent saved empty_state blank saved_valid saved_imported

abbrev imported : State
imported = (init_genesis saved empty_state).1

imported-IsExportable : IsExportable (highest saved) imported
unfolding init_genesis restore_data restore_batches EnergyKeeper.set_params
    EnergyKeeper.submit_energy_data EnergyKeeper.submit_batch EnergyKeeper.set_current_id
    highest_data highest_batch parse_energy_id parse_digits
imported-IsExportable = record {
  consistent = (init_genesis-IsConsistent saved empty_state blank saved_valid saved_imported).0;
  batches_keyed = λ i b g. ground (arith, eq_iff (codes "energy-9") i);
  data_end = refl;
  batches_end = refl;
}

imported_again : (init_genesis (export_genesis imported) empty_state).0 ≡ ok tt
unfolding init_genesis restore_data restore_batches EnergyKeeper.set_params
    EnergyKeeper.submit_energy_data EnergyKeeper.submit_batch EnergyKeeper.set_current_id
    highest_data highest_batch parse_energy_id parse_digits export_genesis
    EnergyKeeper.get_current_id EnergyKeeper.get_all_data_unbounded
    EnergyKeeper.get_all_batches_unbounded EnergyKeeper.get_params
imported_again = refl

init_genesis-export_genesis-IsCopy_example :
    IsCopy (highest saved) imported (init_genesis (export_genesis imported) empty_state).1
init_genesis-export_genesis-IsCopy_example =
    init_genesis-export_genesis-IsCopy (highest saved) imported imported-IsExportable empty_state
      blank imported_again
