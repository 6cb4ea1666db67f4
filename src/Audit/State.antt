-- ===== src/Audit/State.antt =====
-- The `Keeper` struct of chain/x/audit/keeper/keeper.go: the collections that it is given, and the
-- state that they hold.
use energychain_node.Prelude.{ℕ, List, Bytes}
use energychain_node.Sdk.Store.{Store, Sequence, RawStore}
use energychain_node.Sdk.Context.{Event}
use energychain_node.Audit.Types.{Params, AuditLog, ParamsError}

pub record Keeper : Type 1 where
  pub authority : Bytes
  -- `crypto/sha256`
  pub sha256 : Bytes → Bytes
  pub params : Store (Unit {0}) Params
  pub id_sequence : Sequence
  pub logs : Store ℕ AuditLog
  pub by_actor : Store (Bytes × ℕ) (Unit {0})
  pub by_event_type : Store (Bytes × ℕ) (Unit {0})
  pub by_time : Store (ℕ × ℕ) (Unit {0})
  -- the transient store under `tStoreKey`
  pub transient : RawStore

pub record State ⦃k : Keeper⦄ : Type 0 where
  pub params : k.params.Carrier
  pub id_sequence : k.id_sequence.Carrier
  pub logs : k.logs.Carrier
  pub by_actor : k.by_actor.Carrier
  pub by_event_type : k.by_event_type.Carrier
  pub by_time : k.by_time.Carrier
  pub audit_counts : k.transient.Carrier
  pub events : List Event

-- The errors that the module returns; a wrapped error is named by its cause.
pub data Error : Type 0 where
  not_allowed_auditor data_too_large audit_limit invalid_authority : Error
  store_log index_by_actor index_by_event_type index_by_time store_params : Error
  invalid_params : ParamsError → Error
