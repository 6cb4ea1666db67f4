-- ===== src/Oracle/Keeper.antt =====
-- The methods of chain/x/oracle/keeper/keeper.go.
use energychain_node.Prelude.{
  ℕ, ◌+◌, ◌^◌, ◌-◌, Bool, false, ◌||◌, Option, none, some, List, [], ◌∷◌, ◌++◌, map, Bytes, ltb,
  leb, length, ◌==◌, list_eq, ℕ_eq, if◌then◌else◌,
}
use energychain_node.Prelude.Int.{ℤ, pos, negsuc, ◌-ℤ◌, pos_part, leb_ℤ, ltb_ℤ, wrap}
use energychain_node.Outcome.{Exec, ◌>>◌, pure, save}
use energychain_node.Sdk.Store.{found, walk_until}
use energychain_node.Sdk.Context.{Context}
use energychain_node.Oracle.Types.{
  Params, OracleInfo, OracleData, GenesisState, default_params, is_authorized_for,
}
use energychain_node.Oracle.State.{
  Keeper, State, Error, store_history, store_latest, store_oracle, store_params,
}

-- `timestampToKey`
abbrev pub timestamp_to_key : ℤ → ℕ
timestamp_to_key (pos n) = n
timestamp_to_key (negsuc n) = 0

abbrev pub max_history_results : ℕ
max_history_results = 1000

abbrev pub max_oracles : ℕ
max_oracles = 1000

-- A callback that collects the values up to a number of them.
abbrev pub collect : {K V : Type 0} → ℕ → List V → K → V → List V × Bool
collect cap results _ v = let all = results ++ v ∷ [] in (all, leb cap (length all))

module _ ⦃k : Keeper⦄ where
  -- The two writes of `SetOracleData`.
  abbrev pub save_history : OracleData → Exec Error State (Unit {0})
  save_history d =
      save (k.history.encodes (d.category, timestamp_to_key d.timestamp) d)
        (λ s. record s {
          history = k.history.put s.history (d.category, timestamp_to_key d.timestamp) d;
        })
        store_history

  abbrev pub save_latest : OracleData → Exec Error State (Unit {0})
  save_latest d =
      save (k.latest_data.encodes d.category d)
        (λ s. record s { latest_data = k.latest_data.put s.latest_data d.category d }) store_latest

  unfoldable pub set_oracle_data : OracleData → Exec Error State (Unit {0})
  set_oracle_data d = do save_history d; save_latest d

  unfoldable pub get_latest_data : State → Bytes → Option OracleData
  get_latest_data s category = elim (k.latest_data.get s.latest_data category) [
    | found d ↦ some d
    | _ ↦ none
  ]

  unfoldable pub set_params : Params → Exec Error State (Unit {0})
  set_params p =
      save (k.params.encodes tt p) (λ s. record s { params = k.params.put s.params tt p })
        store_params

  unfoldable pub get_params : State → Params
  get_params s = elim (k.params.get s.params tt) [ found p ↦ p | _ ↦ default_params ]

  -- The value with whether it is stale; `none` if nothing is found.
  unfoldable pub get_fresh_latest_data : Context → State → Bytes → Option (OracleData × Bool)
  get_fresh_latest_data ctx s category = elim (get_latest_data s category) [
    | none ↦ none
    | some d ↦
        let max_age = (get_params s).data_max_age in
        if leb_ℤ max_age (pos 0)
        then some (d, false)
        else some (d, ltb_ℤ max_age (wrap (ctx.block_time -ℤ d.timestamp)))
  ]

  unfoldable pub get_data_history : State → Bytes → ℤ → ℤ → List OracleData
  get_data_history s category from_time to_time =
      if category == [] || ltb_ℤ from_time (pos 0) || ltb_ℤ to_time from_time
      then []
      else let last = pos_part to_time in
        let end_ts = if ltb last (2 ^ 64 - 1) then last + 1 else last in
        (walk_until (collect max_history_results) []
          (k.walk_range s.history category (pos_part from_time) end_ts)).0

  unfoldable pub add_oracle : OracleInfo → Exec Error State (Unit {0})
  add_oracle o =
      save (k.oracles.encodes o.address o)
        (λ s. record s { oracles = k.oracles.put s.oracles o.address o }) store_oracle

  -- `RemoveOracle`: a failure is logged only.
  unfoldable pub remove_oracle : Bytes → State → State
  remove_oracle address s =
      if k.oracles.encodes_key address
      then record s { oracles = k.oracles.delete s.oracles address }
      else s

  unfoldable pub get_oracle : State → Bytes → Option OracleInfo
  get_oracle s address = elim (k.oracles.get s.oracles address) [ found o ↦ some o | _ ↦ none ]

  unfoldable pub is_authorized_oracle : State → Bytes → Bytes → Bool
  is_authorized_oracle s address category = elim (get_oracle s address) [
    | none ↦ false
    | some o ↦ is_authorized_for o category
  ]

  unfoldable pub get_all_oracles : State → List OracleInfo
  get_all_oracles s = (walk_until (collect max_oracles) [] (k.oracles.walk s.oracles)).0

  -- The two loops of `InitGenesis`.
  unfoldable pub restore_oracles : List OracleInfo → Exec Error State (Unit {0})
  restore_oracles [] = pure tt
  restore_oracles (o ∷ rest) = do add_oracle o; restore_oracles rest

  unfoldable pub restore_data : List OracleData → Exec Error State (Unit {0})
  restore_data [] = pure tt
  restore_data (d ∷ rest) = do set_oracle_data d; restore_data rest

  unfoldable pub init_genesis : GenesisState → Exec Error State (Unit {0})
  init_genesis gs = do set_params gs.params; restore_oracles gs.oracles; restore_data gs.records

  unfoldable pub export_genesis : State → GenesisState
  export_genesis s = record {
    params = get_params s;
    oracles = get_all_oracles s;
    records = map (λ e. e.1) (k.history.walk s.history);
  }
