-- ===== src/Identity/Types.antt =====
-- The messages, records and parameters of chain/x/identity/types.
use energychain_node.Prelude.{
  ℕ, Bool, Option, none, some, List, [], Bytes, codes, ltb, ◌==◌, list_eq, ℕ_eq, if◌then◌else◌,
}
use energychain_node.Prelude.Int.{ℤ}

pub record Identity : Type 0 where
  pub address : Bytes
  pub name : Bytes
  pub role : Bytes
  pub status : Bytes
  pub metadata : Bytes
  pub registered_at : ℤ
  pub updated_at : ℤ

pub record Params : Type 0 where
  pub admin_address : Bytes
  pub max_metadata_size : ℕ

pub record MsgRegisterIdentity : Type 0 where
  pub creator : Bytes
  pub address : Bytes
  pub name : Bytes
  pub role : Bytes
  pub metadata : Bytes

pub record MsgUpdateIdentity : Type 0 where
  pub creator : Bytes
  pub address : Bytes
  pub name : Bytes
  pub metadata : Bytes

pub record MsgRevokeIdentity : Type 0 where
  pub creator : Bytes
  pub address : Bytes
  pub reason : Bytes

pub record MsgUpdateParams : Type 0 where
  pub authority : Bytes
  pub params : Params

pub record GenesisState : Type 0 where
  pub identities : List Identity
  pub params : Params

abbrev pub status_active : Bytes
status_active = codes "active"

abbrev pub status_revoked : Bytes
status_revoked = codes "revoked"

abbrev pub identity_max_metadata_lower_bound : ℕ
identity_max_metadata_lower_bound = 128

abbrev pub identity_max_metadata_upper_bound : ℕ
identity_max_metadata_upper_bound = 65536

abbrev pub default_params : Params
default_params = record { admin_address = []; max_metadata_size = 4096 }

pub data ParamsError : Type 0 where
  invalid_admin_address metadata_below metadata_above : ParamsError

-- `none` is the nil error. Whether `sdk.AccAddressFromBech32` takes an address is a parameter.
unfoldable pub validate : (Bytes → Bool) → Params → Option ParamsError
validate valid_address p =
    let size =
      if ltb p.max_metadata_size identity_max_metadata_lower_bound
      then some metadata_below
      else if ltb identity_max_metadata_upper_bound p.max_metadata_size
      then some metadata_above
      else none in
    if p.admin_address == []
    then size
    else if valid_address p.admin_address
    then size
    else some invalid_admin_address
