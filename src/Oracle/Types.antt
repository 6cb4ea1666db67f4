-- ===== src/Oracle/Types.antt =====
-- The messages, records and parameters of chain/x/oracle/types.
use energychain_node.Prelude.{
  ℕ, Bool, false, true, Option, none, some, List, Bytes, listed, ltb, eqb, length, if◌then◌else◌,
}
use energychain_node.Prelude.Int.{ℤ, pos, leb_ℤ, ltb_ℤ}

pub record OracleData : Type 0 where
  pub category : Bytes
  pub value : Bytes
  pub metadata : Bytes
  pub timestamp : ℤ
  pub submitter : Bytes
  pub block_height : ℤ

pub record OracleInfo : Type 0 where
  pub address : Bytes
  pub name : Bytes
  pub active : Bool
  pub authorized_categories : List Bytes

pub record Params : Type 0 where
  pub min_submissions : ℕ
  pub data_max_age : ℤ
  pub max_metadata_size : ℕ

pub record MsgSubmitData : Type 0 where
  pub submitter : Bytes
  pub category : Bytes
  pub value : Bytes
  pub metadata : Bytes
  pub timestamp : ℤ

pub record MsgAddOracle : Type 0 where
  pub authority : Bytes
  pub oracle_address : Bytes
  pub name : Bytes
  pub authorized_categories : List Bytes

pub record MsgRemoveOracle : Type 0 where
  pub authority : Bytes
  pub oracle_address : Bytes

pub record MsgUpdateParams : Type 0 where
  pub authority : Bytes
  pub params : Params

pub record GenesisState : Type 0 where
  pub params : Params
  pub oracles : List OracleInfo
  pub records : List OracleData

abbrev pub oracle_max_metadata_lower_bound : ℕ
oracle_max_metadata_lower_bound = 128

abbrev pub oracle_max_metadata_upper_bound : ℕ
oracle_max_metadata_upper_bound = 65536

abbrev pub oracle_data_max_age_upper_bound : ℤ
oracle_data_max_age_upper_bound = pos 31536000

abbrev pub default_params : Params
default_params = record { min_submissions = 1; data_max_age = pos 3600; max_metadata_size = 4096 }

pub data ParamsError : Type 0 where
  min_submissions_zero max_age_not_positive max_age_above metadata_below metadata_above :
      ParamsError

-- `none` is the nil error.
unfoldable pub validate : Params → Option ParamsError
validate p =
    if eqb p.min_submissions 0
    then some min_submissions_zero
    else if leb_ℤ p.data_max_age (pos 0)
    then some max_age_not_positive
    else if ltb_ℤ oracle_data_max_age_upper_bound p.data_max_age
    then some max_age_above
    else if ltb p.max_metadata_size oracle_max_metadata_lower_bound
    then some metadata_below
    else if ltb oracle_max_metadata_upper_bound p.max_metadata_size
    then some metadata_above
    else none

unfoldable pub is_authorized_for : OracleInfo → Bytes → Bool
is_authorized_for o category =
    if o.active
    then if eqb (length o.authorized_categories) 0
      then true
      else listed category o.authorized_categories
    else false
