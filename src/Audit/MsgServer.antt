-- ===== src/Audit/MsgServer.antt =====
-- The message handlers of chain/x/audit/keeper/msg_server.go.
use energychain_node.Prelude.{
  ℕ, Bool, true, not, ◌&&◌, none, some, [], ◌∷◌, ◌++◌, Bytes, codes, listed, exceeds, ltb, ◌==◌,
  list_eq, ℕ_eq, if◌then◌else◌,
}
use energychain_node.Outcome.{Exec, ◌>>=◌, ◌>>◌, fail, gets, require, modify}
use energychain_node.Hex.{hex_encode_upper}
use energychain_node.Sdk.Context.{Context, Event}
use energychain_node.Energy.EnergyId.{decimal}
use energychain_node.Audit.Types.{AuditLog, MsgRecordAudit, MsgUpdateParams, validate}
use energychain_node.Audit.State.{
  Keeper, State, Error, not_allowed_auditor, data_too_large, invalid_authority, invalid_params,
}
use energychain_node.Audit.Keeper as AuditKeeper

abbrev pub recorded_event : ℕ → MsgRecordAudit → Event
recorded_event id msg = record {
  kind = codes "audit_recorded";
  attributes =
      (codes "id", decimal id)
      ∷ (codes "event_type", msg.event_type)
      ∷ (codes "actor", msg.creator)
      ∷ (codes "target", msg.target)
      ∷ (codes "action", msg.action)
      ∷ (codes "data", msg.content)
      ∷ [];
}

module _ ⦃k : Keeper⦄ where
  abbrev pub emit : Event → Exec Error State (Unit {0})
  emit e = modify (λ s. record s { events = s.events ++ e ∷ [] })

  unfoldable pub is_allowed_auditor : State → Bytes → Bool
  is_allowed_auditor s address =
      let params = AuditKeeper.get_params s in
      if params.permissionless then true else listed address params.allowed_auditors

  abbrev pub tx_hash : Context → Bytes
  tx_hash ctx = if ctx.tx_bytes == [] then [] else hex_encode_upper (k.sha256 ctx.tx_bytes)

  abbrev pub recorded_log : Context → MsgRecordAudit → ℕ → AuditLog
  recorded_log ctx msg id = record {
    id = id;
    event_type = msg.event_type;
    actor = msg.creator;
    target = msg.target;
    action = msg.action;
    content = msg.content;
    block_height = ctx.block_height;
    timestamp = ctx.block_time;
    tx_hash = tx_hash ctx;
  }

  unfoldable pub record_audit : Context → MsgRecordAudit → Exec Error State (Unit {0})
  record_audit ctx msg = do
    allowed ← gets (λ s. is_allowed_auditor s msg.creator)
    require allowed not_allowed_auditor
    params ← gets AuditKeeper.get_params
    require (not (ltb 0 params.max_data_size && exceeds msg.content params.max_data_size))
        data_too_large
    AuditKeeper.check_and_incr_audit_count msg.creator
    id ← gets AuditKeeper.get_next_id
    AuditKeeper.record_audit_log (recorded_log ctx msg id)
    AuditKeeper.increment_counter id
    emit (recorded_event id msg)

  unfoldable pub update_params : MsgUpdateParams → Exec Error State (Unit {0})
  update_params msg =
      if msg.authority == k.authority
      then elim (validate msg.params) [
        | some e ↦ fail (invalid_params e)
        | none ↦ AuditKeeper.set_params msg.params
      ]
      else fail invalid_authority
