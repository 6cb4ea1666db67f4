-- ===== src/Energy/Queries/Tests.antt =====
-- The theorem on the queries of the energy module at a concrete input.
use energychain_node.Prelude.{
  ◌≡◌, refl, [], ◌∷◌, codes, arith, inl, list_eq, ℕ_eq, pair_eq, unit_eq,
}
use energychain_node.Outcome.{ok}
use energychain_node.Sdk.Store.{found}
use energychain_node.Sdk.OnePage.{one_page}
use energychain_node.Energy.Types.{EnergyData}
use energychain_node.Energy.State.{State}
use energychain_node.Energy.EnergyId.{energy_id, decimal}
use energychain_node.Energy.Keeper as EnergyKeeper
use energychain_node.Energy.MsgServer.{submitted_data, submit_energy_data}
use energychain_node.Energy.Memory.{
  memory, plain, block, reading, empty_state, empty_state-IsConsistent,
}
use energychain_node.Energy.Consistency.{Progress}
use energychain_node.Energy.Consistency.Handlers.{submit_energy_data-consistent}
use energychain_node.Energy.Queries.{energy_data_by_category, resolve}
use energychain_node.Energy.Queries.Stored.{energy_data_by_category-stored}

abbrev full : State
full = (submit_energy_data block reading empty_state).1

abbrev stored : EnergyData
stored = submitted_data block reading (energy_id 1)

full-Progress : Progress 0 1 empty_state full
full-Progress =
    submit_energy_data-consistent block reading 0 empty_state empty_state-IsConsistent (omega arith)

solar_found :
    energy_data_by_category (one_page memory.by_category (λ e. e.0)) full (codes "solar") tt
    ≡ ok (stored ∷ [], tt)
unfolding energy_data_by_category resolve submit_energy_data EnergyKeeper.get_energy_data
    EnergyKeeper.is_allowed_submitter EnergyKeeper.get_params EnergyKeeper.submit_count
    EnergyKeeper.stored_count EnergyKeeper.check_and_incr_submit_count EnergyKeeper.generate_id
    EnergyKeeper.submit_energy_data energy_id decimal
solar_found = refl

energy_data_by_category-stored_example :
    (memory.energy_data.get full.energy_data (energy_id 1) ≡ found stored)
    × (codes "solar" ≡ codes "solar")
energy_data_by_category-stored_example =
    energy_data_by_category-stored full-Progress.0 full full-Progress.3
      (one_page memory.by_category (λ e. e.0)) (λ e. refl) (codes "solar") tt (stored ∷ []) tt
      solar_found stored (inl refl)
