-- ===== src/Precompiles/Reads.antt =====
-- What a contract reads through the precompiles of chain/precompiles after messages to the modules.
use energychain_node.Prelude.{
  ℕ, ◌<◌, ◌≤◌, ◌^◌, ◌≡◌, ◌≢◌, ◌↔◌, refl, suc, Bool, true, false, Option, some, List, [], ◌∷◌, Bytes,
  ◌==◌, list_eq, ℕ_eq, length, take, ltb, arith, Bool-cases, inl, inr, ◌⊎◌,
}
use energychain_node.Outcome.{ok, err}
use energychain_node.Crypto.{Crypto}
use energychain_node.Sdk.Context.{Context}
use energychain_node.Energy.Types as EnergyTypes
use energychain_node.Energy.State as EnergyState
use energychain_node.Energy.Keeper as EnergyKeeper
use energychain_node.Energy.MsgServer.{submit_energy_data, submitted_data}
use energychain_node.Energy.Consistency as EnergyConsistency
use energychain_node.Energy.Consistency.Handlers.{submit_energy_data-stored}
use energychain_node.Identity.Types.{MsgRevokeIdentity}
use energychain_node.Identity.State as IdentityState
use energychain_node.Identity.MsgServer.{revoke_identity}
use energychain_node.Identity.Lifecycle.{IsConsistent}
use energychain_node.Identity.Lifecycle.Handlers.{Steps}
use energychain_node.Identity.Access.{revoke_identity-for_good}
use energychain_node.Precompiles.Abi.{Abi, Arg, string, unknown_method, packed}
use energychain_node.Precompiles.Energy as EnergyPrecompile
use energychain_node.Precompiles.Identity as IdentityPrecompile

module _ (abi : Abi) ⦃c : Crypto⦄ ⦃k : EnergyState.Keeper⦄ where
  -- From a consistent store with an identifier left, after a submission that succeeds, a call of
  -- getEnergyData on the identifier returns the packing of exactly the submitted record, found.
  pub submit_energy_data-execute :
      (pack : EnergyPrecompile.EnergyDataOut → Bool → Option Bytes) (contract : abi.Contract)
      (read_only : Bool) (n : ℕ) (s : EnergyState.State) (ctx : Context)
      (msg : EnergyTypes.MsgSubmitEnergyData) (id : Bytes)
      → EnergyConsistency.IsConsistent n s
      → suc n < 2 ^ 64
      → (submit_energy_data ctx msg s).0 ≡ ok id
      → abi.setup_abi EnergyPrecompile.is_transaction contract read_only
        ≡ some (EnergyPrecompile.get_energy_data_method, string id ∷ [])
      → EnergyPrecompile.execute abi pack (submit_energy_data ctx msg s).1 contract read_only
        ≡ packed (pack (EnergyPrecompile.energy_data_out (submitted_data ctx msg id)) true)
  unfolding EnergyPrecompile.execute EnergyPrecompile.get_energy_data_call
      EnergyKeeper.get_energy_data
  submit_energy_data-execute pack contract read_only n s ctx msg id h l done call =
      let (_, there) = submit_energy_data-stored ctx msg n s id h l done in
      rw (EnergyPrecompile.execute, call, EnergyKeeper.get_energy_data, there) refl

module _ (abi : Abi) ⦃k : IdentityState.Keeper⦄ (out : IdentityPrecompile.Outputs) where
  -- After a revocation that succeeds on a consistent store, and any further messages, a call of
  -- hasRole on the address returns the packing of false, for every role.
  pub revoke_identity-execute :
      (contract : abi.Contract) (read_only : Bool) (ctx : Context) (msg : MsgRevokeIdentity)
      (s t : IdentityState.State) (role : Bytes)
      → IsConsistent s
      → (revoke_identity ctx msg s).0 ≡ ok tt
      → Steps (revoke_identity ctx msg s).1 t
      → abi.setup_abi IdentityPrecompile.is_transaction contract read_only
        ≡ some (IdentityPrecompile.has_role_method, string msg.address ∷ string role ∷ [])
      → IdentityPrecompile.execute abi out t contract read_only ≡ packed (out.pack_flag false)
  unfolding IdentityPrecompile.execute IdentityPrecompile.dispatch IdentityPrecompile.has_role
      IdentityPrecompile.parse_string_arg
  revoke_identity-execute contract read_only ctx msg s t role h done steps call =
      let (_, gone) = revoke_identity-for_good ctx msg s t role h done steps in
      rw (IdentityPrecompile.execute, call, gone) refl

module _ ⦃k : IdentityState.Keeper⦄ (out : IdentityPrecompile.Outputs)
    (s : IdentityState.State) where
  -- The method is one of the four, or none of them.
  method-cases :
      (name : Bytes)
      → (IdentityPrecompile.method_gas name ≢ 0)
          × (IdentityPrecompile.dispatch out s name [] ≢ err unknown_method)
        ⊎ (IdentityPrecompile.method_gas name ≡ 0)
          × ((args : List Arg) → IdentityPrecompile.dispatch out s name args ≡ err unknown_method)
  unfolding IdentityPrecompile.method_gas IdentityPrecompile.dispatch
      IdentityPrecompile.get_identity IdentityPrecompile.get_identity_by_evm_address
      IdentityPrecompile.has_role IdentityPrecompile.is_registered
      IdentityPrecompile.parse_string_arg
  method-cases name = elim (Bool-cases (name == IdentityPrecompile.get_identity_method)) [
    | inl e ↦ rw e (inl (omega arith, λ u. cc))
    | inr a ↦ elim (Bool-cases (name == IdentityPrecompile.get_identity_by_evm_address_method)) [
      | inl e ↦ rw (a, e) (inl (omega arith, λ u. cc))
      | inr b ↦ elim (Bool-cases (name == IdentityPrecompile.has_role_method)) [
        | inl e ↦ rw (a, b, e) (inl (omega arith, λ u. cc))
        | inr d ↦ elim (Bool-cases (name == IdentityPrecompile.is_registered_method)) [
          | inl e ↦ rw (a, b, d, e) (inl (omega arith, λ u. cc))
          | inr f ↦ rw (a, b, d, f) (inr (refl, λ args. refl))
        ]
      ]
    ]
  ]

module _ (abi : Abi) ⦃k : IdentityState.Keeper⦄ (out : IdentityPrecompile.Outputs)
    (s : IdentityState.State) where
  -- A call of a method that the ABI knows costs nothing exactly if every call of it is refused as one
  -- of an unknown method: whatever the precompile runs has a price.
  pub required_gas-dispatch :
      (input name : Bytes)
      → 4 ≤ length input
      → abi.method_by_id (take 4 input) ≡ some name
      → (IdentityPrecompile.required_gas abi input ≡ 0)
        ↔ ((args : List Arg) → IdentityPrecompile.dispatch out s name args ≡ err unknown_method)
  unfolding IdentityPrecompile.required_gas
  required_gas-dispatch input name l known =
      let long : ltb (length input) 4 ≡ false = ground arith in
      rw (IdentityPrecompile.required_gas, long, known)
        (elim (method-cases out s name) [
          | inl (priced, handled) ↦ (λ z. absurd (priced z), λ f. absurd (handled (f [])))
          | inr (free, refused) ↦ (λ _. refused, λ _. free)
        ])
