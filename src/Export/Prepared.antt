-- ===== src/Export/Prepared.antt =====
-- An export for height 0 (chain/export.go) is one of restarted stores.
use energychain_node.Prelude.{◌≡◌, refl, sym, ap, ◌∙◌, subst, true, Option, none, some, List, Bytes}
use energychain_node.Prelude.Int.{ℤ, pos}
use energychain_node.Outcome.{Outcome, ok, err, panic, continue_inv, some_or, ok-injective}
use energychain_node.Export.Keepers.{ExportError, Stores, State, Keepers}
use energychain_node.Export.ZeroHeight.{prep_for_zero_height_genesis}
use energychain_node.Export.Zeroed.{
  IsIndexed, IsRestarted, Finishes, prep_for_zero_height_genesis-IsRestarted,
}
use energychain_node.Export.AppState.{
  AppError, Exporter, ExportedApp, wrapped, prepare, exported_app, export_app_state_and_validators,
}

wrapped_ok : (r : Outcome ExportError (Unit {0})) → wrapped r ≡ ok tt → r ≡ ok tt
wrapped_ok (ok a) h = refl
wrapped_ok (err e) h = cc
wrapped_ok panic h = cc

some_or_ok : {A : Type 0} (e : AppError) (o : Option A) (a : A) → some_or e o ≡ ok a → o ≡ some a
some_or_ok e none a h = cc
some_or_ok e (some b) a h = ap some (ok-injective h)

module _ ⦃t : Stores⦄ ⦃k : Keepers⦄ where
  -- What is exported: the state of the modules, and the validators, in `s`.
  pub record IsExport (x : Exporter) (modules : List Bytes) (s : State) (app : ExportedApp x)
      : Type 0 where
    pub gen : x.GenesisState
    pub exported : x.export_genesis_for_modules s modules ≡ some gen
    pub marshalled : x.marshal_indent gen ≡ some app.app_state
    pub validators : app.validators ≡ (x.write_validators s).0
    pub consensus_params : app.consensus_params ≡ x.consensus_params s

  -- An export for height 0 that gives an app, from stores whose records stand under their own keys,
  -- gives it the height 0, and exports a state whose staking stores have been restarted, which jails
  -- exactly the validators that a list which is not empty does not name and leaves the others as
  -- jailed as they were, and in which then, unless the iterator did not close, the validator set is
  -- updated and every signing info starts at 0.
  pub export_app_state_and_validators-IsRestarted :
      (x : Exporter) (last_height : ℤ) (allowed modules : List Bytes) (s : State)
      (app : ExportedApp x) (e : Option AppError)
      → IsIndexed s
      → (export_app_state_and_validators x last_height true allowed modules s).0 ≡ ok (app, e)
      → let final = (export_app_state_and_validators x last_height true allowed modules s).1 in
        (u : State) × (app.height ≡ pos 0)
        × IsExport x modules final app
        × IsRestarted allowed s u
        × Finishes last_height u final
  unfolding export_app_state_and_validators
  export_app_state_and_validators-IsRestarted x last_height allowed modules s app e h done =
      let s' = (prep_for_zero_height_genesis last_height allowed s).1 in
      let (_, prepared, rest, same) =
        continue_inv (prepare last_height allowed s) _ (app, e) done in
      let (gen, exported, rest', same') =
        continue_inv (some_or AppError.export_modules (x.export_genesis_for_modules s' modules), s')
          _ (app, e) rest in
      let (out, marshalled, last, same'') =
        continue_inv (some_or AppError.marshal (x.marshal_indent gen), s') _ (app, e) rest' in
      let base = (exported_app x (pos 0) out s').0 in
      let is_app : base ≡ app =
        ap (λ (p : ExportedApp x × Option AppError). p.0) (ok-injective last) in
      let runs = same ∙ same' ∙ same'' in
      let (u, restarted, finishes) =
        prep_for_zero_height_genesis-IsRestarted last_height allowed s h (wrapped_ok _ prepared) in
      let export_of : IsExport x modules s' base = record {
        gen = gen;
        exported = some_or_ok _ _ gen exported;
        marshalled = some_or_ok _ _ out marshalled;
        validators = refl;
        consensus_params = refl;
      } in
      subst
        (λ (r : Outcome AppError (ExportedApp x × Option AppError) × State).
          (u : State) × (app.height ≡ pos 0)
          × IsExport x modules r.1 app
          × IsRestarted allowed s u
          × Finishes last_height u r.1)
        (sym runs)
        (
          u,
          sym (ap (λ (a : ExportedApp x). a.height) is_app),
          subst (λ a. IsExport x modules s' a) is_app export_of,
          restarted,
          finishes,
        )
