-- ===== src/Audit/Queries.antt =====
-- chain/x/audit/keeper/query_server.go, and the queries over the indexes of
-- chain/x/audit/keeper/keeper.go.
pub mod Matching
use energychain_node.Prelude.{
  ℕ, ◌+◌, ◌%◌, ◌^◌, Bool, true, false, ◌&&◌, ◌||◌, not, none, some, List, [], ◌∷◌, ◌++◌, Bytes,
  length, leb, ◌==◌, list_eq, ℕ_eq, if◌then◌else◌,
}
use energychain_node.Prelude.Int.{ℤ, pos, ltb_ℤ, eqb_ℤ}
use energychain_node.Outcome.{Outcome, ok, err}
use energychain_node.Sdk.Context.{Context}
use energychain_node.Sdk.Store.{walk_until}
use energychain_node.Sdk.Paging.{answer, Paging}
use energychain_node.Audit.Types.{Params, AuditLog}
use energychain_node.Audit.State.{Keeper, State}
use energychain_node.Audit.Keeper.{get_audit_log, get_params, max_query_results, timestamp_to_key}

pub data QueryError : Type 0 where
  log_not_found invalid_range paginating_failed : QueryError

pub record AuditLogsRequest : Type 0 where
  pub actor : Bytes
  pub event_type : Bytes
  pub from_timestamp : ℤ
  pub to_timestamp : ℤ

abbrev pub has_time_range : AuditLogsRequest → Bool
has_time_range req = ltb_ℤ (pos 0) req.from_timestamp || ltb_ℤ (pos 0) req.to_timestamp

-- `to` after its default, the time of the block.
abbrev pub upper_time : Context → AuditLogsRequest → ℤ
upper_time ctx req =
    if has_time_range req && eqb_ℤ req.to_timestamp (pos 0)
    then ctx.block_time
    else req.to_timestamp

-- The predicate of the page.
unfoldable pub matches : Context → AuditLogsRequest → ℕ → AuditLog → Bool
matches ctx req _ log =
    if not (req.actor == []) && not (log.actor == req.actor)
    then false
    else if not (req.event_type == []) && not (log.event_type == req.event_type)
    then false
    else if has_time_range req
        && (ltb_ℤ log.timestamp req.from_timestamp || ltb_ℤ (upper_time ctx req) log.timestamp)
    then false
    else true

module _ ⦃k : Keeper⦄ where
  unfoldable pub audit_log : State → ℕ → Outcome QueryError AuditLog
  audit_log s id = elim (get_audit_log s id) [ none ↦ err log_not_found | some l ↦ ok l ]

  unfoldable pub audit_logs :
      (paging : Paging k.logs (Unit {0}))
      → Context
      → State
      → AuditLogsRequest
      → paging.Request
      → Outcome QueryError (List AuditLog × paging.Response)
  audit_logs paging ctx s req page =
      if has_time_range req && ltb_ℤ (upper_time ctx req) req.from_timestamp
      then err invalid_range
      else answer k.logs paging paginating_failed (λ e. e.1)
          (paging.visit s.logs none page (matches ctx req))

  unfoldable pub params : State → Outcome QueryError Params
  params s = ok (get_params s)

  -- The callback of the three walks over an index: the logs so far, up to the cap.
  unfoldable pub collect_logs :
      {A : Type 0} → State → List AuditLog → A × ℕ → Unit {0} → List AuditLog × Bool
  collect_logs s logs key _ =
      let all : List AuditLog = elim (get_audit_log s key.1) [
        | none ↦ logs
        | some l ↦ logs ++ l ∷ []
      ] in
      (all, leb max_query_results (length all))

  -- The walks over the indexes: what the ranges visit, in order, is the collections'.
  module _ (prefixed_actor : k.by_actor.Carrier → Bytes → List ((Bytes × ℕ) × Unit {0})) where
    unfoldable pub get_audit_logs_by_actor : State → Bytes → List AuditLog
    get_audit_logs_by_actor s actor =
        (walk_until (collect_logs s) [] (prefixed_actor s.by_actor actor)).0

  module _ (prefixed_type : k.by_event_type.Carrier → Bytes → List ((Bytes × ℕ) × Unit {0})) where
    unfoldable pub get_audit_logs_by_type : State → Bytes → List AuditLog
    get_audit_logs_by_type s event_type =
        (walk_until (collect_logs s) [] (prefixed_type s.by_event_type event_type)).0

  -- `range` has the entries from one time on and before another.
  module _ (range : k.by_time.Carrier → ℕ → ℕ → List ((ℕ × ℕ) × Unit {0})) where
    unfoldable pub get_audit_logs_by_time_range : State → ℤ → ℤ → List AuditLog
    get_audit_logs_by_time_range s from to =
        if ltb_ℤ from (pos 0) || ltb_ℤ to from
        then []
        else (walk_until (collect_logs s) []
            (range s.by_time (timestamp_to_key from) ((timestamp_to_key to + 1) % 2 ^ 64))).0
