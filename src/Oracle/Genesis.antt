-- ===== src/Oracle/Genesis.antt =====
-- The checks on a genesis state and on messages of chain/x/oracle/types/genesis.go and msgs.go.
use energychain_node.Prelude.{
  ℕ, Bool, false, not, ◌&&◌, ◌||◌, Option, none, some, List, [], ◌∷◌, Bytes, listed, exceeds, ◌==◌,
  list_eq, ℕ_eq, if◌then◌else◌,
}
use energychain_node.Prelude.Int.{ℤ, pos, leb_ℤ, ltb_ℤ, eqb_ℤ}
use energychain_node.Oracle.Types.{
  OracleInfo, OracleData, GenesisState, MsgSubmitData, MsgAddOracle, MsgRemoveOracle,
  MsgUpdateParams, ParamsError, validate, default_params,
}

abbrev pub default_genesis : GenesisState
default_genesis = record { params = default_params; oracles = []; records = [] }

pub data GenesisError : Type 0 where
  invalid_params : ParamsError → GenesisError
  oracle_empty_address oracle_duplicate oracle_empty_name : GenesisError
  data_empty_category data_empty_value data_timestamp_low data_timestamp_high : GenesisError
  data_unknown_oracle data_metadata_above data_duplicate : GenesisError

-- The loop over the oracles, on the addresses met so far.
unfoldable pub validate_oracles : List Bytes → List OracleInfo → Option GenesisError
validate_oracles addresses [] = none
validate_oracles addresses (o ∷ rest) =
    let later = validate_oracles (o.address ∷ addresses) rest in
    if o.address == []
    then some oracle_empty_address
    else if listed o.address addresses
    then some oracle_duplicate
    else if o.name == []
    then some oracle_empty_name
    else later

-- 9999-12-31T00:00:00Z
abbrev pub max_timestamp : ℤ
max_timestamp = pos 253402300800

-- `seen[category][timestamp]`
abbrev pub seen_at : Bytes → ℤ → List (Bytes × ℤ) → Bool
seen_at category t [] = false
seen_at category t ((c, u) ∷ rest) = (c == category && eqb_ℤ u t) || seen_at category t rest

-- The addresses that the loop over the oracles leaves in its map.
abbrev pub oracle_addresses : List OracleInfo → List Bytes
oracle_addresses [] = []
oracle_addresses (o ∷ rest) = o.address ∷ oracle_addresses rest

-- The loop over the data, on the categories and times met so far.
unfoldable pub validate_data :
    ℕ → List Bytes → List (Bytes × ℤ) → List OracleData → Option GenesisError
validate_data cap addresses seen [] = none
validate_data cap addresses seen (d ∷ rest) =
    let later = validate_data cap addresses ((d.category, d.timestamp) ∷ seen) rest in
    if d.category == []
    then some data_empty_category
    else if d.value == []
    then some data_empty_value
    else if leb_ℤ d.timestamp (pos 0)
    then some data_timestamp_low
    else if ltb_ℤ max_timestamp d.timestamp
    then some data_timestamp_high
    else if not (d.submitter == []) && not (listed d.submitter addresses)
    then some data_unknown_oracle
    else if exceeds d.metadata cap
    then some data_metadata_above
    else if seen_at d.category d.timestamp seen
    then some data_duplicate
    else later

-- `GenesisState.Validate`
unfoldable pub validate_genesis : GenesisState → Option GenesisError
validate_genesis gs = elim (validate gs.params) [
  | some e ↦ some (invalid_params e)
  | none ↦ elim (validate_oracles [] gs.oracles) [
    | some e ↦ some e
    | none ↦ validate_data gs.params.max_metadata_size (oracle_addresses gs.oracles) [] gs.records
  ]
]

pub data MsgError : Type 0 where
  invalid_signer invalid_oracle empty_category empty_value timestamp_low empty_name : MsgError
  invalid_msg_params : ParamsError → MsgError

-- The `ValidateBasic` methods. Whether `sdk.AccAddressFromBech32` takes an address is a parameter.
module _ (valid_address : Bytes → Bool) where
  unfoldable pub validate_basic_submit : MsgSubmitData → Option MsgError
  validate_basic_submit msg =
      if valid_address msg.submitter
      then if msg.category == []
        then some empty_category
        else if msg.value == []
        then some empty_value
        else if leb_ℤ msg.timestamp (pos 0)
        then some timestamp_low
        else none
      else some invalid_signer

  unfoldable pub validate_basic_add : MsgAddOracle → Option MsgError
  validate_basic_add msg =
      if valid_address msg.authority
      then if valid_address msg.oracle_address
        then if msg.name == [] then some empty_name else none
        else some invalid_oracle
      else some invalid_signer

  unfoldable pub validate_basic_remove : MsgRemoveOracle → Option MsgError
  validate_basic_remove msg =
      if valid_address msg.authority
      then if valid_address msg.oracle_address then none else some invalid_oracle
      else some invalid_signer

  unfoldable pub validate_basic_update_params : MsgUpdateParams → Option MsgError
  validate_basic_update_params msg =
      if valid_address msg.authority
      then elim (validate msg.params) [ some e ↦ some (invalid_msg_params e) | none ↦ none ]
      else some invalid_signer
