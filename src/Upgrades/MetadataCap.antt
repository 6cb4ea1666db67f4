-- ===== src/Upgrades/MetadataCap.antt =====
-- `CreateUpgradeHandler` and `bumpEnergyMetadataCap` of chain/upgrades/v1_0_1/upgrade.go.
use energychain_node.Prelude.{ℕ, Option, none, some, leb, if◌then◌else◌}
use energychain_node.Outcome.{Outcome, ok, err, panic, Exec}
use energychain_node.Energy.Types.{Params, validate}
use energychain_node.Energy.State.{Keeper, State, Error, invalid_params}
use energychain_node.Energy.Keeper.{get_params, set_params}

abbrev pub new_cap : ℕ
new_cap = 8192

pub data UpgradeError : Type 0 where
  bump_failed : Error → UpgradeError
  migrations_failed : UpgradeError

-- The parameters with the new cap.
abbrev pub raised : Params → Params
raised p = record p { max_metadata_size = new_cap }

module _ ⦃k : Keeper⦄ where
  unfoldable pub bump_energy_metadata_cap : Exec Error State (Unit {0})
  bump_energy_metadata_cap s =
      let params = get_params s in
      if leb new_cap params.max_metadata_size then (ok tt, s) else elim (validate (raised params)) [
        | some e ↦ (err (invalid_params e), s)
        | none ↦ set_params (raised params) s
      ]

  -- The handler, on `RunMigrations` of the SDK, which changes the store and returns the new version
  -- map or an error. Its result has the old map where there is an error.
  module _ {VersionMap : Type 0}
      (run_migrations : VersionMap → State → Option VersionMap × State) where
    unfoldable pub upgrade_handler :
        VersionMap → State → Outcome UpgradeError (VersionMap × Option UpgradeError) × State
    upgrade_handler from_vm s =
        let (done, s1) = bump_energy_metadata_cap s in
        elim done [
          | err e ↦ (ok (from_vm, some (bump_failed e)), s1)
          | panic ↦ (panic, s1)
          | ok _ ↦
              let (new_vm, s2) = run_migrations from_vm s1 in
              elim new_vm [
                | none ↦ (ok (from_vm, some migrations_failed), s2)
                | some vm ↦ (ok (vm, none), s2)
              ]
        ]
