-- ===== src/Energy/Queries.antt =====
-- chain/x/energy/keeper/query_server.go.
pub mod Stored
mod Tests
use energychain_node.Prelude.{none, some, List, [], Bytes}
use energychain_node.Prelude.Int.{pos}
use energychain_node.Outcome.{Outcome, ok, err}
use energychain_node.Sdk.Paging.{answer, Paging, keep_all}
use energychain_node.Energy.Types.{Params, EnergyData, BatchSubmission}
use energychain_node.Energy.State.{Keeper, State}
use energychain_node.Energy.Keeper.{get_energy_data, get_batch, get_params}

pub data QueryError : Type 0 where
  data_not_found batch_not_found paginating_failed : QueryError

-- The answer for a stale entry of an index: a record with nothing but the identifier.
abbrev pub placeholder : Bytes → EnergyData
placeholder id = record {
  id = id;
  category = [];
  submitter = [];
  data_hash = [];
  metadata = [];
  block_height = pos 0;
  timestamp = pos 0;
}

module _ ⦃k : Keeper⦄ where
  unfoldable pub energy_data : State → Bytes → Outcome QueryError EnergyData
  energy_data s id = elim (get_energy_data s id) [ none ↦ err data_not_found | some d ↦ ok d ]

  -- The transformation of an entry of an index.
  unfoldable pub resolve : State → (Bytes × Bytes) × Unit {0} → EnergyData
  resolve s ((_, id), _) = elim (get_energy_data s id) [ none ↦ placeholder id | some d ↦ d ]

  unfoldable pub energy_data_by_category :
      (paging : Paging k.by_category Bytes)
      → State
      → Bytes
      → paging.Request
      → Outcome QueryError (List EnergyData × paging.Response)
  energy_data_by_category paging s category req =
      answer k.by_category paging paginating_failed (resolve s)
        (paging.visit s.by_category (some category) req keep_all)

  unfoldable pub energy_data_by_submitter :
      (paging : Paging k.by_submitter Bytes)
      → State
      → Bytes
      → paging.Request
      → Outcome QueryError (List EnergyData × paging.Response)
  energy_data_by_submitter paging s submitter req =
      answer k.by_submitter paging paginating_failed (resolve s)
        (paging.visit s.by_submitter (some submitter) req keep_all)

  unfoldable pub batch : State → Bytes → Outcome QueryError BatchSubmission
  batch s id = elim (get_batch s id) [ none ↦ err batch_not_found | some b ↦ ok b ]

  unfoldable pub params : State → Outcome QueryError Params
  params s = ok (get_params s)
