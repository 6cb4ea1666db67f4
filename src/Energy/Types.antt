-- ===== src/Energy/Types.antt =====
-- The messages, records and parameters of chain/x/energy/types.
use energychain_node.Prelude.{
  ℕ, Bool, true, Option, none, some, List, [], Bytes, ltb, eqb, if◌then◌else◌,
}
use energychain_node.Prelude.Int.{ℤ}

pub record EnergyData : Type 0 where
  pub id : Bytes
  pub category : Bytes
  pub submitter : Bytes
  pub data_hash : Bytes
  pub metadata : Bytes
  pub block_height : ℤ
  pub timestamp : ℤ

pub record BatchSubmission : Type 0 where
  pub id : Bytes
  pub submitter : Bytes
  pub category : Bytes
  pub data_count : ℕ
  pub merkle_root : Bytes
  pub timestamp : ℤ

pub record BatchItem : Type 0 where
  pub data_hash : Bytes
  pub metadata : Bytes

pub record Params : Type 0 where
  pub max_batch_size : ℕ
  pub allowed_submitters : List Bytes
  pub permissionless : Bool
  pub max_metadata_size : ℕ
  pub max_submissions_per_block_per_submitter : ℕ

pub record MsgSubmitEnergyData : Type 0 where
  pub submitter : Bytes
  pub category : Bytes
  pub data_hash : Bytes
  pub metadata : Bytes

pub record MsgBatchSubmit : Type 0 where
  pub submitter : Bytes
  pub category : Bytes
  pub items : List BatchItem
  pub merkle_root : Bytes

pub record MsgUpdateParams : Type 0 where
  pub authority : Bytes
  pub params : Params

pub record GenesisState : Type 0 where
  pub params : Params
  pub data_records : List EnergyData
  pub batches : List BatchSubmission
  pub next_id : ℕ

abbrev pub max_batch_size_upper_bound : ℕ
max_batch_size_upper_bound = 10000

abbrev pub max_metadata_size_lower_bound : ℕ
max_metadata_size_lower_bound = 128

abbrev pub max_metadata_size_upper_bound : ℕ
max_metadata_size_upper_bound = 65536

abbrev pub max_submissions_per_block_upper : ℕ
max_submissions_per_block_upper = 10000

abbrev pub default_params : Params
default_params = record {
  max_batch_size = 100;
  allowed_submitters = [];
  permissionless = true;
  max_metadata_size = 4096;
  max_submissions_per_block_per_submitter = 100;
}

pub data ParamsError : Type 0 where
  batch_size_zero batch_size_above metadata_below metadata_above submissions_above : ParamsError

-- `none` is the nil error.
unfoldable pub validate : Params → Option ParamsError
validate p =
    if eqb p.max_batch_size 0
    then some batch_size_zero
    else if ltb max_batch_size_upper_bound p.max_batch_size
    then some batch_size_above
    else if ltb p.max_metadata_size max_metadata_size_lower_bound
    then some metadata_below
    else if ltb max_metadata_size_upper_bound p.max_metadata_size
    then some metadata_above
    else if ltb max_submissions_per_block_upper p.max_submissions_per_block_per_submitter
    then some submissions_above
    else none
