-- ===== src/Precompiles/Identity.antt =====
-- chain/precompiles/identity: identity.go and methods.go.
use energychain_node.Prelude.{
  ℕ, zero, suc, Bool, true, false, Option, none, some, List, [], ◌∷◌, Bytes, codes, length, take,
  ltb, ◌==◌, ◌||◌, list_eq, ℕ_eq, if◌then◌else◌,
}
use energychain_node.Prelude.Int.{ℤ, pos}
use energychain_node.Outcome.{Outcome, ok, err, panic}
use energychain_node.Identity.Types.{Identity}
use energychain_node.Identity.State.{Keeper, State}
use energychain_node.Identity.Keeper as IdentityKeeper
use energychain_node.Precompiles.Abi.{
  Abi, Arg, string, address, other, Error, setup_failed, unknown_method, wrong_arity, missing_arg,
  not_string, not_address, packed,
}

abbrev pub get_identity_method : Bytes
get_identity_method = codes "getIdentity"

abbrev pub get_identity_by_evm_address_method : Bytes
get_identity_by_evm_address_method = codes "getIdentityByEvmAddress"

abbrev pub has_role_method : Bytes
has_role_method = codes "hasRole"

abbrev pub is_registered_method : Bytes
is_registered_method = codes "isRegistered"

abbrev pub gas_get_identity : ℕ
gas_get_identity = 5000

abbrev pub gas_has_role : ℕ
gas_has_role = 3000

abbrev pub gas_is_registered : ℕ
gas_is_registered = 2000

pub record IdentityOut : Type 0 where
  pub addr : Bytes
  pub name : Bytes
  pub role : Bytes
  pub status : Bytes
  pub metadata : Bytes
  pub registered_at : ℤ
  pub updated_at : ℤ

abbrev pub to_identity_out : Identity → IdentityOut
to_identity_out i = record {
  addr = i.address;
  name = i.name;
  role = i.role;
  status = i.status;
  metadata = i.metadata;
  registered_at = i.registered_at;
  updated_at = i.updated_at;
}

-- The zero record, which comes with a lookup that finds nothing.
abbrev pub zero_identity : Identity
zero_identity = record {
  address = [];
  name = [];
  role = [];
  status = [];
  metadata = [];
  registered_at = pos 0;
  updated_at = pos 0;
}

-- `IsTransaction`
abbrev pub is_transaction : Bytes → Bool
is_transaction _ = false

-- `parseStringArg`
unfoldable pub parse_string_arg : List Arg → ℕ → Outcome Error Bytes
parse_string_arg [] idx = err missing_arg
parse_string_arg (string s ∷ rest) zero = ok s
parse_string_arg (address a ∷ rest) zero = err not_string
parse_string_arg (other ∷ rest) zero = err not_string
parse_string_arg (arg ∷ rest) (suc idx) = parse_string_arg rest idx

-- The rest of a function after a fallible step.
abbrev pub after : {A B : Type 0} → Outcome Error A → (A → Outcome Error B) → Outcome Error B
after (ok a) f = f a
after (err e) f = err e
after panic f = panic

-- `Pack` of the methods' outputs, and the bech32 text of an EVM address: code of the libraries.
pub record Outputs : Type 0 where
  pub pack_identity : IdentityOut → Bool → Option Bytes
  pub pack_flag : Bool → Option Bytes
  pub bech32 : Bytes → Bytes

-- The switch of `RequiredGas`.
unfoldable pub method_gas : Bytes → ℕ
method_gas name =
    if name == get_identity_method || name == get_identity_by_evm_address_method
    then gas_get_identity
    else if name == has_role_method
    then gas_has_role
    else if name == is_registered_method
    then gas_is_registered
    else 0

module _ ⦃k : Keeper⦄ (out : Outputs) where
  abbrev pub looked_up : Option Identity → Outcome Error Bytes
  looked_up none = packed (out.pack_identity (to_identity_out zero_identity) false)
  looked_up (some i) = packed (out.pack_identity (to_identity_out i) true)

  unfoldable pub get_identity : State → List Arg → Outcome Error Bytes
  get_identity s args =
      after (parse_string_arg args 0) (λ addr. looked_up (IdentityKeeper.get_identity s addr))

  unfoldable pub get_identity_by_evm_address : State → List Arg → Outcome Error Bytes
  get_identity_by_evm_address s (address a ∷ []) =
      looked_up (IdentityKeeper.get_identity s (out.bech32 a))
  get_identity_by_evm_address s (string t ∷ []) = err not_address
  get_identity_by_evm_address s (other ∷ []) = err not_address
  get_identity_by_evm_address s _ = err wrong_arity

  unfoldable pub has_role : State → List Arg → Outcome Error Bytes
  has_role s args = after (parse_string_arg args 0) (λ addr.
      after (parse_string_arg args 1)
        (λ role. packed (out.pack_flag (IdentityKeeper.has_role s addr role))))

  unfoldable pub is_registered : State → List Arg → Outcome Error Bytes
  is_registered s args =
      after (parse_string_arg args 0)
        (λ addr. packed (out.pack_flag (IdentityKeeper.is_registered s addr)))

  -- The switch of `execute`.
  unfoldable pub dispatch : State → Bytes → List Arg → Outcome Error Bytes
  dispatch s name args =
      if name == get_identity_method
      then get_identity s args
      else if name == get_identity_by_evm_address_method
      then get_identity_by_evm_address s args
      else if name == has_role_method
      then has_role s args
      else if name == is_registered_method
      then is_registered s args
      else err unknown_method

module _ (abi : Abi) where
  unfoldable pub required_gas : Bytes → ℕ
  required_gas input =
      if ltb (length input) 4
      then 0
      else elim (abi.method_by_id (take 4 input)) [ none ↦ 0 | some name ↦ method_gas name ]

  module _ ⦃k : Keeper⦄ (out : Outputs) where
    unfoldable pub execute : State → abi.Contract → Bool → Outcome Error Bytes
    execute s contract read_only = elim (abi.setup_abi is_transaction contract read_only) [
      | none ↦ err setup_failed
      | some (name, args) ↦ dispatch out s name args
    ]
