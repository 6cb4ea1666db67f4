-- ===== src/Export/Keepers.antt =====
-- What chain/export.go uses of the SDK: its staking and slashing records, as far as the export reads
-- or writes them, and the keepers. `others` is what a record has besides.
use energychain_node.Prelude.{◌≡◌, Bool, Option, List, Bytes, In}
use energychain_node.Prelude.Int.{ℤ}
use energychain_node.Outcome.{Exec}
use energychain_node.Sdk.Store.{Store, found}

pub record Validator : Type 0 where
  -- `GetOperator`, the address in text
  pub operator : Bytes
  pub unbonding_height : ℤ
  pub jailed : Bool
  pub others : Bytes

-- An entry of a redelegation or of an unbonding delegation.
pub record Entry : Type 0 where
  pub creation_height : ℤ
  pub others : Bytes

pub record Redelegation : Type 0 where
  pub delegator_address : Bytes
  pub validator_src_address : Bytes
  pub validator_dst_address : Bytes
  pub entries : List Entry

pub record UnbondingDelegation : Type 0 where
  pub delegator_address : Bytes
  pub validator_address : Bytes
  pub entries : List Entry

pub record Delegation : Type 0 where
  pub delegator_address : Bytes
  pub validator_address : Bytes

pub record SigningInfo : Type 0 where
  pub start_height : ℤ
  pub others : Bytes

pub data ExportError : Type 0 where
  iterate_validators all_delegations iterate_redelegations set_redelegation : ExportError
  iterate_unbonding set_unbonding validator_not_found set_validator update_validators : ExportError
  iterate_signing_infos set_signing_info : ExportError

-- The stores of the staking and slashing modules, and what the distribution module keeps.
pub record Stores : Type 1 where
  pub validators : Store Bytes Validator
  pub redelegations : Store Bytes Redelegation
  pub unbonding_delegations : Store Bytes UnbondingDelegation
  pub signing_infos : Store Bytes SigningInfo
  pub Distribution : Type 0

pub record State ⦃t : Stores⦄ : Type 0 where
  pub validators : t.validators.Carrier
  pub redelegations : t.redelegations.Carrier
  pub unbonding_delegations : t.unbonding_delegations.Carrier
  pub signing_infos : t.signing_infos.Carrier
  pub distribution : t.Distribution

-- The keepers and the address codecs. What the distribution keeper does depends on the height of the
-- context and on the whole state, and changes its own part.
pub record Keepers ⦃t : Stores⦄ : Type 1 where
  -- `sdk.ValAddressFromBech32`, `sdk.AccAddressFromBech32` and `ValAddress.String`
  pub val_address_from_bech32 : Bytes → Option Bytes
  pub acc_address_from_bech32 : Bytes → Option Bytes
  pub val_address_string : Bytes → Bytes
  -- the keys under which `SetRedelegation` and `SetUnbondingDelegation` write
  pub redelegation_key : Redelegation → Bytes
  pub unbonding_key : UnbondingDelegation → Bytes
  -- `GetAllDelegations`
  pub all_delegations : State → Option (List Delegation)
  pub withdraw_validator_commission : ℤ → Bytes → State → t.Distribution
  pub withdraw_delegation_rewards : ℤ → Bytes → Bytes → State → t.Distribution
  -- the hooks; the Boolean is whether they return nil
  pub before_delegation_created : ℤ → Bytes → Bytes → State → Bool × t.Distribution
  pub after_delegation_modified : ℤ → Bytes → Bytes → State → Bool × t.Distribution
  pub after_validator_created : ℤ → Bytes → State → Bool × t.Distribution
  pub delete_all_validator_slash_events : State → t.Distribution
  pub delete_all_validator_historical_rewards : State → t.Distribution
  pub Coins : Type 0
  pub add : Coins → Coins → Coins
  -- `GetValidatorOutstandingRewardsCoins`, and the community pool of `FeePool`
  pub outstanding_rewards : State → Bytes → Option Coins
  pub community_pool : State → Option Coins
  pub set_community_pool : Coins → State → Option t.Distribution
  -- the addresses of the keys under `ValidatorsKey`, from the last to the first
  pub validator_keys : t.validators.Carrier → List Bytes
  pub validator_keys_complete :
      (m : t.validators.Carrier) (a : Bytes) (v : Validator)
      → t.validators.get m a ≡ found v
      → In a (validator_keys m)
  -- whether `iter.Close` returns nil
  pub iterator_closes : State → Bool
  -- `ApplyAndReturnValidatorSetUpdates`
  pub apply_validator_set_updates : ℤ → Exec ExportError State (Unit {0})
