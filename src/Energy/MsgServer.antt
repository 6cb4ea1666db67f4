-- ===== src/Energy/MsgServer.antt =====
-- The message handlers of chain/x/energy/keeper/msg_server.go.
use energychain_node.Prelude.{
  exceeds, ℕ, ◌%◌, ◌^◌, Bool, true, false, not, ◌&&◌, none, some, List, [], ◌∷◌, ◌++◌, Bytes, codes,
  length, ltb, ◌==◌, list_eq, ℕ_eq, if◌then◌else◌,
}
use energychain_node.Outcome.{Exec, ◌>>=◌, ◌>>◌, pure, fail, gets, lift, require, modify}
use energychain_node.Crypto.{Crypto}
use energychain_node.Sdk.Context.{Context, Event}
use energychain_node.Energy.Types.{
  EnergyData, BatchSubmission, BatchItem, MsgSubmitEnergyData, MsgBatchSubmit, MsgUpdateParams,
  validate,
}
use energychain_node.Energy.EnergyId.{decimal}
use energychain_node.Energy.State.{
  Keeper, State, Error, not_allowed_submitter, metadata_too_large, batch_too_large,
  invalid_authority, invalid_params,
}
use energychain_node.Energy.Keeper as EnergyKeeper
use energychain_node.Energy.Merkle.{verify_merkle_root}

-- The loop that looks for an item with too much metadata.
abbrev pub any_exceeds : List BatchItem → ℕ → Bool
any_exceeds [] cap = false
any_exceeds (item ∷ items) cap =
    let rest = any_exceeds items cap in if exceeds item.metadata cap then true else rest

abbrev pub submitted_event : Bytes → MsgSubmitEnergyData → Event
submitted_event id msg = record {
  kind = codes "energy_data_submitted";
  attributes =
      (codes "id", id)
      ∷ (codes "submitter", msg.submitter)
      ∷ (codes "category", msg.category)
      ∷ (codes "data_hash", msg.data_hash)
      ∷ (codes "metadata", msg.metadata)
      ∷ [];
}

abbrev pub batch_event : Bytes → MsgBatchSubmit → Event
batch_event id msg = record {
  kind = codes "energy_batch_submitted";
  attributes =
      (codes "batch_id", id)
      ∷ (codes "submitter", msg.submitter)
      ∷ (codes "category", msg.category)
      ∷ (codes "data_count", decimal (length msg.items))
      ∷ (codes "merkle_root", msg.merkle_root)
      ∷ [];
}

abbrev pub submitted_data : Context → MsgSubmitEnergyData → Bytes → EnergyData
submitted_data ctx msg id = record {
  id = id;
  category = msg.category;
  submitter = msg.submitter;
  data_hash = msg.data_hash;
  metadata = msg.metadata;
  block_height = ctx.block_height;
  timestamp = ctx.block_time;
}

abbrev pub item_data : Context → MsgBatchSubmit → BatchItem → Bytes → EnergyData
item_data ctx msg item id = record {
  id = id;
  category = msg.category;
  submitter = msg.submitter;
  data_hash = item.data_hash;
  metadata = item.metadata;
  block_height = ctx.block_height;
  timestamp = ctx.block_time;
}

abbrev pub batch_of : Context → MsgBatchSubmit → Bytes → BatchSubmission
batch_of ctx msg id = record {
  id = id;
  submitter = msg.submitter;
  category = msg.category;
  data_count = length msg.items % 2 ^ 32;
  merkle_root = msg.merkle_root;
  timestamp = ctx.block_time;
}

module _ ⦃k : Keeper⦄ where
  abbrev pub emit : Event → Exec Error State (Unit {0})
  emit e = modify (λ s. record s { events = s.events ++ e ∷ [] })

  unfoldable pub submit_energy_data : Context → MsgSubmitEnergyData → Exec Error State Bytes
  submit_energy_data ctx msg = do
    allowed ← gets (λ s. EnergyKeeper.is_allowed_submitter s msg.submitter)
    require allowed not_allowed_submitter
    params ← gets EnergyKeeper.get_params
    require (not (ltb 0 params.max_metadata_size && exceeds msg.metadata params.max_metadata_size))
        metadata_too_large
    EnergyKeeper.check_and_incr_submit_count msg.submitter
    id ← EnergyKeeper.generate_id
    EnergyKeeper.submit_energy_data (submitted_data ctx msg id)
    emit (submitted_event id msg)
    pure id

  -- The loop that stores the items of a batch.
  unfoldable pub submit_items :
      Context → MsgBatchSubmit → List BatchItem → Exec Error State (Unit {0})
  submit_items ctx msg [] = pure tt
  submit_items ctx msg (item ∷ items) = do
    id ← EnergyKeeper.generate_id
    EnergyKeeper.submit_energy_data (item_data ctx msg item id)
    submit_items ctx msg items

  unfoldable pub update_params : MsgUpdateParams → Exec Error State (Unit {0})
  update_params msg =
      if msg.authority == k.authority
      then elim (validate msg.params) [
        | some e ↦ fail (invalid_params e)
        | none ↦ EnergyKeeper.set_params msg.params
      ]
      else fail invalid_authority

module _ ⦃k : Keeper⦄ ⦃c : Crypto⦄ where
  -- The batch identifier and the number of items.
  unfoldable pub batch_submit : Context → MsgBatchSubmit → Exec Error State (Bytes × ℕ)
  unfolding submit_items
  batch_submit ctx msg = do
    allowed ← gets (λ s. EnergyKeeper.is_allowed_submitter s msg.submitter)
    require allowed not_allowed_submitter
    params ← gets EnergyKeeper.get_params
    require (not (ltb params.max_batch_size (length msg.items % 2 ^ 32))) batch_too_large
    require (not (ltb 0 params.max_metadata_size && any_exceeds msg.items params.max_metadata_size))
        metadata_too_large
    EnergyKeeper.check_and_incr_submit_count msg.submitter
    lift (verify_merkle_root msg.items msg.merkle_root)
    batch_id ← EnergyKeeper.generate_id
    submit_items ctx msg msg.items
    EnergyKeeper.submit_batch (batch_of ctx msg batch_id)
    emit (batch_event batch_id msg)
    pure (batch_id, length msg.items % 2 ^ 32)
