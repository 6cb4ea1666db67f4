-- ===== src/Oracle/MsgServer.antt =====
-- The message handlers of chain/x/oracle/keeper/msg_server.go.
use energychain_node.Prelude.{
  suc, true, not, ◌&&◌, none, some, [], ◌∷◌, ◌++◌, Bytes, codes, exceeds, ltb, ◌==◌, list_eq, ℕ_eq,
  if◌then◌else◌,
}
use energychain_node.Prelude.Int.{ℤ, pos, negsuc, ◌+ℤ◌, ◌-ℤ◌, leb_ℤ, ltb_ℤ, wrap}
use energychain_node.Outcome.{Exec, ◌>>=◌, ◌>>◌, fail, gets, lift, some_or, require, modify}
use energychain_node.Sdk.Context.{Context, Event}
use energychain_node.Energy.EnergyId.{decimal}
use energychain_node.Oracle.Types.{
  Params, OracleInfo, OracleData, MsgSubmitData, MsgAddOracle, MsgRemoveOracle, MsgUpdateParams,
  validate,
}
use energychain_node.Oracle.State.{
  Keeper, State, Error, not_authorized, metadata_too_large, too_far_future, too_far_past,
  unauthorized, oracle_not_found, invalid_params,
}
use energychain_node.Oracle.Keeper as OracleKeeper

-- `%d` of an int64
abbrev pub decimal_int : ℤ → Bytes
decimal_int (pos n) = decimal n
decimal_int (negsuc n) = 45 ∷ decimal (suc n)

-- The drift that a submission may have against the time of the block.
abbrev pub max_drift : Params → ℤ
max_drift p = if leb_ℤ p.data_max_age (pos 0) then pos 3600 else p.data_max_age

abbrev pub submitted_data : Context → MsgSubmitData → OracleData
submitted_data ctx msg = record {
  category = msg.category;
  value = msg.value;
  metadata = msg.metadata;
  timestamp = msg.timestamp;
  submitter = msg.submitter;
  block_height = ctx.block_height;
}

abbrev pub submitted_event : MsgSubmitData → Event
submitted_event msg = record {
  kind = codes "oracle_data_submitted";
  attributes =
      (codes "submitter", msg.submitter)
      ∷ (codes "category", msg.category)
      ∷ (codes "value", msg.value)
      ∷ (codes "metadata", msg.metadata)
      ∷ (codes "timestamp", decimal_int msg.timestamp)
      ∷ [];
}

abbrev pub added_oracle : MsgAddOracle → OracleInfo
added_oracle msg = record {
  address = msg.oracle_address;
  name = msg.name;
  active = true;
  authorized_categories = msg.authorized_categories;
}

module _ ⦃k : Keeper⦄ where
  abbrev pub emit : Event → Exec Error State (Unit {0})
  emit e = modify (λ s. record s { events = s.events ++ e ∷ [] })

  unfoldable pub submit_data : Context → MsgSubmitData → Exec Error State (Unit {0})
  submit_data ctx msg = do
    authorized ← gets (λ s. OracleKeeper.is_authorized_oracle s msg.submitter msg.category)
    require authorized not_authorized
    params ← gets OracleKeeper.get_params
    require (not (ltb 0 params.max_metadata_size && exceeds msg.metadata params.max_metadata_size))
        metadata_too_large
    require (not (ltb_ℤ (wrap (ctx.block_time +ℤ max_drift params)) msg.timestamp)) too_far_future
    require (not (ltb_ℤ msg.timestamp (wrap (ctx.block_time -ℤ max_drift params)))) too_far_past
    OracleKeeper.set_oracle_data (submitted_data ctx msg)
    emit (submitted_event msg)

  unfoldable pub add_oracle : MsgAddOracle → Exec Error State (Unit {0})
  add_oracle msg = do
    require (msg.authority == k.authority) unauthorized
    OracleKeeper.add_oracle (added_oracle msg)
    emit (record {
      kind = codes "oracle_added";
      attributes = (codes "address", msg.oracle_address) ∷ (codes "name", msg.name) ∷ [];
    })

  unfoldable pub remove_oracle : MsgRemoveOracle → Exec Error State (Unit {0})
  remove_oracle msg = do
    require (msg.authority == k.authority) unauthorized
    stored ← gets (λ s. OracleKeeper.get_oracle s msg.oracle_address)
    lift (some_or oracle_not_found stored)
    modify (OracleKeeper.remove_oracle msg.oracle_address)
    emit (record {
      kind = codes "oracle_removed";
      attributes = (codes "address", msg.oracle_address) ∷ [];
    })

  unfoldable pub update_params : MsgUpdateParams → Exec Error State (Unit {0})
  update_params msg =
      if msg.authority == k.authority
      then elim (validate msg.params) [
        | some e ↦ fail (invalid_params e)
        | none ↦ OracleKeeper.set_params msg.params
      ]
      else fail unauthorized
