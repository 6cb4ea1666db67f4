-- ===== src/Audit/Types.antt =====
-- The messages, records and parameters of chain/x/audit/types.
use energychain_node.Prelude.{
  ℕ, Bool, true, Option, none, some, List, [], Bytes, ltb, if◌then◌else◌,
}
use energychain_node.Prelude.Int.{ℤ, pos, ltb_ℤ}

pub record AuditLog : Type 0 where
  pub id : ℕ
  pub event_type : Bytes
  pub actor : Bytes
  pub target : Bytes
  pub action : Bytes
  pub content : Bytes
  pub block_height : ℤ
  pub timestamp : ℤ
  pub tx_hash : Bytes

pub record Params : Type 0 where
  pub large_transfer_threshold : ℕ
  pub retention_blocks : ℤ
  pub allowed_auditors : List Bytes
  pub max_data_size : ℕ
  pub permissionless : Bool
  pub max_audits_per_block_per_creator : ℕ

pub record MsgRecordAudit : Type 0 where
  pub creator : Bytes
  pub event_type : Bytes
  pub target : Bytes
  pub action : Bytes
  pub content : Bytes

pub record MsgUpdateParams : Type 0 where
  pub authority : Bytes
  pub params : Params

pub record GenesisState : Type 0 where
  pub params : Params
  pub logs : List AuditLog
  pub counter : ℕ

abbrev pub default_params : Params
default_params = record {
  large_transfer_threshold = 1000000;
  retention_blocks = pos 0;
  allowed_auditors = [];
  max_data_size = 65536;
  permissionless = true;
  max_audits_per_block_per_creator = 100;
}

pub data ParamsError : Type 0 where
  retention_negative retention_above data_below data_above audits_above : ParamsError

-- `none` is the nil error.
unfoldable pub validate : Params → Option ParamsError
validate p =
    if ltb_ℤ p.retention_blocks (pos 0)
    then some retention_negative
    else if ltb_ℤ (pos 100000000) p.retention_blocks
    then some retention_above
    else if ltb p.max_data_size 128
    then some data_below
    else if ltb 1048576 p.max_data_size
    then some data_above
    else if ltb 10000 p.max_audits_per_block_per_creator
    then some audits_above
    else none
