-- ===== src/Audit/Genesis.antt =====
-- The checks on a genesis state and on messages of chain/x/audit/types/genesis.go and msgs.go.
use energychain_node.Prelude.{
  ℕ, Bool, false, ◌||◌, Option, none, some, List, [], ◌∷◌, Bytes, exceeds, eqb, ◌==◌, list_eq, ℕ_eq,
  if◌then◌else◌,
}
use energychain_node.Audit.Types.{
  AuditLog, GenesisState, MsgRecordAudit, MsgUpdateParams, ParamsError, validate, default_params,
}

abbrev pub default_genesis : GenesisState
default_genesis = record { params = default_params; logs = []; counter = 0 }

pub data GenesisError : Type 0 where
  invalid_params : ParamsError → GenesisError
  duplicate_id empty_actor empty_action empty_event_type data_above : GenesisError

-- `seen[id]`
abbrev pub seen_id : ℕ → List ℕ → Bool
seen_id id [] = false
seen_id id (x ∷ xs) = eqb x id || seen_id id xs

-- The loop of `Validate`, on the identifiers met so far.
unfoldable pub validate_logs : ℕ → List ℕ → List AuditLog → Option GenesisError
validate_logs cap ids [] = none
validate_logs cap ids (l ∷ rest) =
    let later = validate_logs cap (l.id ∷ ids) rest in
    if seen_id l.id ids
    then some duplicate_id
    else if l.actor == []
    then some empty_actor
    else if l.action == []
    then some empty_action
    else if l.event_type == []
    then some empty_event_type
    else if exceeds l.content cap
    then some data_above
    else later

-- `GenesisState.Validate`
unfoldable pub validate_genesis : GenesisState → Option GenesisError
validate_genesis gs = elim (validate gs.params) [
  | some e ↦ some (invalid_params e)
  | none ↦ validate_logs gs.params.max_data_size [] gs.logs
]

pub data MsgError : Type 0 where
  invalid_signer no_event_type no_action : MsgError
  invalid_msg_params : ParamsError → MsgError

-- The `ValidateBasic` methods. Whether `sdk.AccAddressFromBech32` takes an address is a parameter.
module _ (valid_address : Bytes → Bool) where
  unfoldable pub validate_basic_record : MsgRecordAudit → Option MsgError
  validate_basic_record msg =
      if valid_address msg.creator
      then if msg.event_type == []
        then some no_event_type
        else if msg.action == []
        then some no_action
        else none
      else some invalid_signer

  unfoldable pub validate_basic_update_params : MsgUpdateParams → Option MsgError
  validate_basic_update_params msg =
      if valid_address msg.authority
      then elim (validate msg.params) [ some e ↦ some (invalid_msg_params e) | none ↦ none ]
      else some invalid_signer
