-- ===== src/Oracle/Invariants.antt =====
-- The checks of chain/x/oracle/keeper/invariants.go. Each returns whether the invariant is broken;
-- the messages are left out.
use energychain_node.Prelude.{
  Bool, true, false, not, ◌||◌, [], Bytes, exceeds, eqb, ◌==◌, list_eq, ℕ_eq, if◌then◌else◌,
}
use energychain_node.Sdk.Store.{found, walk_until}
use energychain_node.Sdk.Walk.{verdict, count_fault}
use energychain_node.Oracle.Types.{OracleInfo, OracleData}
use energychain_node.Oracle.State.{Keeper, State}
use energychain_node.Oracle.Keeper as OracleKeeper
use energychain_node.Oracle.Keeper.{timestamp_to_key}

abbrev pub malformed_oracle : Bytes → OracleInfo → Bool
malformed_oracle key o = key == [] || o.address == [] || not (key == o.address)

module _ ⦃k : Keeper⦄ where
  -- The latest value has no record in the history, or one with another payload.
  abbrev pub drifted : State → Bytes → OracleData → Bool
  drifted s category latest =
      elim (k.history.get s.history (category, timestamp_to_key latest.timestamp)) [
        | found full ↦ not (full.value == latest.value) || not (full.submitter == latest.submitter)
        | _ ↦ true
      ]

  unfoldable pub latest_data_consistency_invariant : State → Bool
  latest_data_consistency_invariant s =
      verdict (k.latest_data.walk_fails s.latest_data)
        (walk_until (count_fault (drifted s)) 0 (k.latest_data.walk s.latest_data))

  unfoldable pub oracle_address_non_empty_invariant : State → Bool
  oracle_address_non_empty_invariant s =
      verdict (k.oracles.walk_fails s.oracles)
        (walk_until (count_fault malformed_oracle) 0 (k.oracles.walk s.oracles))

  unfoldable pub metadata_within_cap_invariant : State → Bool
  metadata_within_cap_invariant s =
      let cap = (OracleKeeper.get_params s).max_metadata_size in
      if eqb cap 0
      then false
      else verdict (k.history.walk_fails s.history)
          (walk_until (count_fault (λ _ d. exceeds d.metadata cap)) 0 (k.history.walk s.history))

  -- `AllInvariants` stops at the first that is broken.
  unfoldable pub all_invariants : State → Bool
  all_invariants s =
      latest_data_consistency_invariant s
      || oracle_address_non_empty_invariant s
      || metadata_within_cap_invariant s
