-- ===== src/Export/AppState.antt =====
-- `ExportAppStateAndValidators` of chain/export.go. The module manager, the JSON encoder, the writer
-- of the validators and the consensus parameters are parameters.
use energychain_node.Prelude.{Bool, Option, none, some, List, Bytes, if◌then◌else◌}
use energychain_node.Prelude.Int.{ℤ, pos, ◌+ℤ◌, wrap}
use energychain_node.Outcome.{Outcome, ok, err, panic, Exec, ◌>>=◌, ◌>>◌, pure, gets, lift, some_or}
use energychain_node.Export.Keepers.{ExportError, Stores, State, Keepers}
use energychain_node.Export.ZeroHeight.{prep_for_zero_height_genesis}

pub data AppError : Type 0 where
  preparation : ExportError → AppError
  export_modules marshal write_validators : AppError

pub record Exporter ⦃t : Stores⦄ : Type 1 where
  pub GenesisState : Type 0
  pub ValidatorSet : Type 0
  pub ConsensusParams : Type 0
  pub export_genesis_for_modules : State → List Bytes → Option GenesisState
  pub marshal_indent : GenesisState → Option Bytes
  -- the validators, and whether the error is nil
  pub write_validators : State → ValidatorSet × Bool
  pub consensus_params : State → ConsensusParams

pub record ExportedApp ⦃t : Stores⦄ (x : Exporter) : Type 0 where
  pub app_state : Bytes
  pub validators : x.ValidatorSet
  pub height : ℤ
  pub consensus_params : x.ConsensusParams

-- The error of the preparation, as the export returns it.
abbrev pub wrapped : Outcome ExportError (Unit {0}) → Outcome AppError (Unit {0})
wrapped (ok a) = ok a
wrapped (err e) = err (preparation e)
wrapped panic = panic

module _ ⦃t : Stores⦄ where
  abbrev pub exported_app : (x : Exporter) → ℤ → Bytes → State → ExportedApp x × Option AppError
  exported_app x height app_state s = (
    record {
      app_state = app_state;
      validators = (x.write_validators s).0;
      height = height;
      consensus_params = x.consensus_params s;
    },
    if (x.write_validators s).1 then none else some write_validators,
  )

module _ ⦃t : Stores⦄ ⦃k : Keepers⦄ where
  abbrev pub prepare : ℤ → List Bytes → Exec AppError State (Unit {0})
  prepare height allowed s =
      let r = prep_for_zero_height_genesis height allowed s in (wrapped r.0, r.1)

  -- An error of the last step is returned beside the exported app, and the others in its place.
  unfoldable pub export_app_state_and_validators :
      (x : Exporter)
      → ℤ
      → Bool
      → List Bytes
      → List Bytes
      → Exec AppError State (ExportedApp x × Option AppError)
  export_app_state_and_validators x last_height for_zero_height allowed modules = do
    let next = wrap (last_height +ℤ pos 1)
    let height = if for_zero_height then pos 0 else next
    if for_zero_height then prepare last_height allowed else pure tt
    gen ← λ s. lift (some_or export_modules (x.export_genesis_for_modules s modules)) s
    app_state ← lift (some_or marshal (x.marshal_indent gen))
    gets (exported_app x height app_state)
