-- ===== src/Oracle/Export.antt =====
-- `ExportGenesis` of chain/x/oracle/keeper/keeper.go against `Validate` of
-- chain/x/oracle/types/genesis.go.
use energychain_node.Prelude.{
  ℕ, ◌≡◌, ◌≢◌, sym, ap, ◌∙◌, false, none, List, [], ◌∷◌, map, inl, inr, arith, Bytes, In, listed,
  eq_iff, list_eq, ℕ_eq, Option-cases,
}
use energychain_node.Prelude.Int.{ℤ}
use energychain_node.Sdk.Store.{found}
use energychain_node.Oracle.Types.{OracleData, validate}
use energychain_node.Oracle.State.{Keeper, State}
use energychain_node.Oracle.Keeper as OracleKeeper
use energychain_node.Oracle.Genesis.{
  validate_genesis, validate_oracles, validate_data, oracle_addresses,
}

In-map :
    {K V : Type 0} (key : K) (v : V) (l : List (K × V))
    → In (key, v) l
    → In v (map (λ (e : K × V). e.1) l)
In-map key v [] h = elim h [ ]
In-map key v (e ∷ l) (inl p) = inl (ap (λ (e : _ × _). e.1) p)
In-map key v (e ∷ l) (inr h) = inr (In-map key v l h)

validate_data-unknown :
    (cap : ℕ) (addresses : List Bytes) (seen : List (Bytes × ℤ)) (l : List OracleData)
    (d : OracleData)
    → In d l
    → d.submitter ≢ []
    → listed d.submitter addresses ≡ false
    → validate_data cap addresses seen l ≢ none
unfolding validate_data
validate_data-unknown cap addresses seen [] d h ne out = elim h [ ]
validate_data-unknown cap addresses seen (e ∷ l) d (inl p) ne out =
    let ne' : e.submitter ≢ [] = λ q. ne (ap (λ z. z.submitter) p ∙ q) in
    let out' : listed e.submitter addresses ≡ false =
      ap (λ z. listed z.submitter addresses) (sym p) ∙ out in
    ground (arith, ne', out', eq_iff e.submitter [])
validate_data-unknown cap addresses seen (e ∷ l) d (inr h) ne out =
    ground
      (arith, validate_data-unknown cap addresses ((e.category, e.timestamp) ∷ seen) l d h ne out)

module _ ⦃k : Keeper⦄ where
  -- A store whose history has a datapoint of an address that the exported oracles do not list, as
  -- after the removal of its oracle, exports a genesis state that its own check refuses, if the walk
  -- of the history ends without an error.
  pub export_genesis-refused :
      (s : State) (key : Bytes × ℕ) (d : OracleData)
      → k.history.walk_fails s.history ≡ false
      → k.history.get s.history key ≡ found d
      → d.submitter ≢ []
      → listed d.submitter (oracle_addresses (OracleKeeper.get_all_oracles s)) ≡ false
      → validate_genesis (OracleKeeper.export_genesis s) ≢ none
  unfolding validate_genesis OracleKeeper.export_genesis
  export_genesis-refused s key d ends there ne out pass =
      let p = OracleKeeper.get_params s in
      let bad =
        validate_data-unknown p.max_metadata_size
          (oracle_addresses (OracleKeeper.get_all_oracles s)) []
          (map (λ e. e.1) (k.history.walk s.history)) d
          (In-map key d (k.history.walk s.history)
            (k.history.walk_complete s.history key d ends there))
          ne out in
      elim (Option-cases (validate p)) [
        | inr (e, invalid) ↦
            cc (rw (validate_genesis, OracleKeeper.export_genesis, invalid) at pass)
        | inl valid ↦ elim (Option-cases (validate_oracles [] (OracleKeeper.get_all_oracles s))) [
          | inr (e, invalid) ↦
              cc (rw (validate_genesis, OracleKeeper.export_genesis, valid, invalid) at pass)
          | inl fine ↦ bad (rw (validate_genesis, OracleKeeper.export_genesis, valid, fine) at pass)
        ]
      ]
