-- ===== src/Identity/Genesis.antt =====
-- The genesis state of the identity module (chain/x/identity/types/genesis.go and `InitGenesis` of
-- chain/x/identity/module.go) and the checks on messages of chain/x/identity/types/msgs.go.
use energychain_node.Prelude.{
  ℕ, Option, none, some, List, [], ◌∷◌, Bytes, listed, exceeds, ◌==◌, list_eq, ℕ_eq, if◌then◌else◌,
}
use energychain_node.Outcome.{Exec, ◌>>◌, pure, or_panic}
use energychain_node.Identity.Types.{
  Identity, GenesisState, MsgRegisterIdentity, MsgUpdateIdentity, MsgRevokeIdentity,
  MsgUpdateParams, ParamsError, validate, default_params,
}
use energychain_node.Identity.State.{Keeper, State, Error}
use energychain_node.Identity.Keeper as IdentityKeeper

abbrev pub default_genesis : GenesisState
default_genesis = record { params = default_params; identities = [] }

pub data GenesisError : Type 0 where
  invalid_params : ParamsError → GenesisError
  empty_address duplicate_address empty_name empty_role empty_status metadata_above : GenesisError

-- The loop of `Validate`, on the addresses met so far.
unfoldable pub validate_identities : ℕ → List Bytes → List Identity → Option GenesisError
validate_identities cap addresses [] = none
validate_identities cap addresses (i ∷ rest) =
    let later = validate_identities cap (i.address ∷ addresses) rest in
    if i.address == []
    then some empty_address
    else if listed i.address addresses
    then some duplicate_address
    else if i.name == []
    then some empty_name
    else if i.role == []
    then some empty_role
    else if i.status == []
    then some empty_status
    else if exceeds i.metadata cap
    then some metadata_above
    else later

pub data MsgError : Type 0 where
  invalid_signer invalid_address no_name no_role : MsgError
  invalid_msg_params : ParamsError → MsgError

module _ ⦃k : Keeper⦄ where
  -- `GenesisState.Validate`
  unfoldable pub validate_genesis : GenesisState → Option GenesisError
  validate_genesis gs = elim (validate k.valid_address gs.params) [
    | some e ↦ some (invalid_params e)
    | none ↦ validate_identities gs.params.max_metadata_size [] gs.identities
  ]

  unfoldable pub restore : List Identity → Exec Error State (Unit {0})
  restore [] = pure tt
  restore (i ∷ rest) = do or_panic (IdentityKeeper.set_identity i); restore rest

  unfoldable pub init_genesis : GenesisState → Exec Error State (Unit {0})
  unfolding restore
  init_genesis gs = do or_panic (IdentityKeeper.set_params gs.params); restore gs.identities

  -- The `ValidateBasic` methods.
  unfoldable pub validate_basic_register : MsgRegisterIdentity → Option MsgError
  validate_basic_register msg =
      if k.valid_address msg.creator
      then if k.valid_address msg.address
        then if msg.name == [] then some no_name else if msg.role == [] then some no_role else none
        else some invalid_address
      else some invalid_signer

  unfoldable pub validate_basic_update : MsgUpdateIdentity → Option MsgError
  validate_basic_update msg =
      if k.valid_address msg.creator
      then if k.valid_address msg.address then none else some invalid_address
      else some invalid_signer

  unfoldable pub validate_basic_revoke : MsgRevokeIdentity → Option MsgError
  validate_basic_revoke msg =
      if k.valid_address msg.creator
      then if k.valid_address msg.address then none else some invalid_address
      else some invalid_signer

  unfoldable pub validate_basic_update_params : MsgUpdateParams → Option MsgError
  validate_basic_update_params msg =
      if k.valid_address msg.authority
      then elim (validate k.valid_address msg.params) [
        | some e ↦ some (invalid_msg_params e)
        | none ↦ none
      ]
      else some invalid_signer
