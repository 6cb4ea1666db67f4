-- ===== src/Oracle/Queries.antt =====
-- chain/x/oracle/keeper/query_server.go.
pub mod Window
use energychain_node.Prelude.{
  ℕ, ◌^◌, ◌-◌, Bool, ◌&&◌, none, some, List, [], Bytes, ◌==◌, list_eq, ℕ_eq, if◌then◌else◌,
}
use energychain_node.Prelude.Int.{ℤ, pos, ltb_ℤ, leb_ℤ, eqb_ℤ}
use energychain_node.Outcome.{Outcome, ok, err}
use energychain_node.Sdk.Context.{Context}
use energychain_node.Sdk.Paging.{answer, Paging, keep_all}
use energychain_node.Oracle.Types.{Params, OracleData, OracleInfo}
use energychain_node.Oracle.State.{Keeper, State}
use energychain_node.Oracle.Keeper.{get_fresh_latest_data, get_oracle, get_params}

pub data QueryError : Type 0 where
  no_data category_required from_negative invalid_range oracle_not_found paginating_failed :
      QueryError

pub record DataHistoryRequest : Type 0 where
  pub category : Bytes
  pub from_time : ℤ
  pub to_time : ℤ

-- `to` after its default, `math.MaxInt64 - 1`.
abbrev pub upper_time : ℤ → ℤ
upper_time to = if eqb_ℤ to (pos 0) then pos (2 ^ 63 - 2) else to

-- The predicate of the page.
abbrev pub in_window : ℤ → ℤ → Bytes × ℕ → OracleData → Bool
in_window from to _ v = leb_ℤ from v.timestamp && leb_ℤ v.timestamp to

module _ ⦃k : Keeper⦄ where
  unfoldable pub latest_data : Context → State → Bytes → Outcome QueryError (OracleData × Bool)
  latest_data ctx s category = elim (get_fresh_latest_data ctx s category) [
    | none ↦ err no_data
    | some answer ↦ ok answer
  ]

  unfoldable pub data_history :
      (paging : Paging k.history Bytes)
      → State
      → DataHistoryRequest
      → paging.Request
      → Outcome QueryError (List OracleData × paging.Response)
  data_history paging s req page =
      let from = req.from_time in
      let to = upper_time req.to_time in
      if req.category == []
      then err category_required
      else if ltb_ℤ from (pos 0)
      then err from_negative
      else if ltb_ℤ to from
      then err invalid_range
      else answer k.history paging paginating_failed (λ e. e.1)
          (paging.visit s.history (some req.category) page (in_window from to))

  unfoldable pub oracle : State → Bytes → Outcome QueryError OracleInfo
  oracle s address = elim (get_oracle s address) [ none ↦ err oracle_not_found | some o ↦ ok o ]

  unfoldable pub all_oracles :
      (paging : Paging k.oracles (Unit {0}))
      → State
      → paging.Request
      → Outcome QueryError (List OracleInfo × paging.Response)
  all_oracles paging s req =
      answer k.oracles paging paginating_failed (λ e. e.1)
        (paging.visit s.oracles none req keep_all)

  unfoldable pub params : State → Outcome QueryError Params
  params s = ok (get_params s)
