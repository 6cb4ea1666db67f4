-- ===== src/Identity/State.antt =====
-- The `Keeper` struct of chain/x/identity/keeper/keeper.go: the collections that it is given, and
-- the state that they hold.
use energychain_node.Prelude.{List, Bytes, Bool}
use energychain_node.Sdk.Store.{Store}
use energychain_node.Sdk.Context.{Event}
use energychain_node.Identity.Types.{Params, Identity, ParamsError}

pub record Keeper : Type 1 where
  pub authority : Bytes
  -- `sdk.AccAddressFromBech32` gives no error
  pub valid_address : Bytes → Bool
  pub params : Store (Unit {0}) Params
  pub identities : Store Bytes Identity
  pub by_role : Store (Bytes × Bytes) (Unit {0})

pub record State ⦃k : Keeper⦄ : Type 0 where
  pub params : k.params.Carrier
  pub identities : k.identities.Carrier
  pub by_role : k.by_role.Carrier
  pub events : List Event

-- The errors that the module returns; a wrapped error is named by its cause.
pub data Error : Type 0 where
  only_admin only_admin_or_owner metadata_too_large already_registered : Error
  identity_not_found already_revoked invalid_authority : Error
  store_identity index_by_role store_params : Error
  invalid_params : ParamsError → Error
