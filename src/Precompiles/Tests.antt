-- ===== src/Precompiles/Tests.antt =====
-- The theorems on the precompiles at concrete inputs.
use energychain_node.Prelude.{
  ◌≡◌, refl, true, some, List, [], ◌∷◌, Bytes, codes, arith, list_eq, ℕ_eq, pair_eq, unit_eq,
}
use energychain_node.Identity.Memory as IdentityMemory
use energychain_node.Identity.Memory.{identity_memory}
use energychain_node.Energy.Memory.{memory, plain}
use energychain_node.Identity.Lifecycle.Handlers.{done}
use energychain_node.Energy.EnergyId.{energy_id}
use energychain_node.Energy.Memory as EnergyMemory
use energychain_node.Energy.MsgServer.{submit_energy_data, submitted_data}
use energychain_node.Precompiles.Abi.{Abi, Arg, string, packed}
use energychain_node.Precompiles.Energy as EnergyPrecompile
use energychain_node.Precompiles.Identity as IdentityPrecompile
use energychain_node.Precompiles.Reads.{submit_energy_data-execute, revoke_identity-execute}

-- A contract is its call.
abbrev calls : Abi
calls = record {
  Contract = Bytes × List Arg;
  method_by_id = λ _. some IdentityPrecompile.has_role_method;
  setup_abi = λ _ call _. some call;
}

abbrev outputs : IdentityPrecompile.Outputs
outputs = record {
  pack_identity = λ i found. some i.addr;
  pack_flag = λ flag. some (codes "flag");
  bech32 = λ a. a;
}

submit_energy_data-execute_example :
    EnergyPrecompile.execute calls
      (λ d _. some d.data_hash)
      (submit_energy_data EnergyMemory.block EnergyMemory.reading EnergyMemory.empty_state).1
      (EnergyPrecompile.get_energy_data_method, string (energy_id 1) ∷ [])
      true
    ≡ packed (
        some
          (EnergyPrecompile.energy_data_out
            (submitted_data EnergyMemory.block EnergyMemory.reading (energy_id 1))).data_hash)
submit_energy_data-execute_example =
    submit_energy_data-execute calls (λ d _. some d.data_hash)
      (EnergyPrecompile.get_energy_data_method, string (energy_id 1) ∷ []) true 0
      EnergyMemory.empty_state EnergyMemory.block EnergyMemory.reading (energy_id 1)
      EnergyMemory.empty_state-IsConsistent (omega arith) EnergyMemory.reading_accepted refl

revoke_identity-execute_example :
    IdentityPrecompile.execute calls outputs IdentityMemory.left
      (IdentityPrecompile.has_role_method, string (codes "alice") ∷ string (codes "producer") ∷ [])
      true
    ≡ packed (some (codes "flag"))
revoke_identity-execute_example =
    revoke_identity-execute calls outputs
      (IdentityPrecompile.has_role_method, string (codes "alice") ∷ string (codes "producer") ∷ [])
      true IdentityMemory.block IdentityMemory.leave IdentityMemory.joined IdentityMemory.left
      (codes "producer") IdentityMemory.joined-IsConsistent IdentityMemory.leave_accepted
      (done IdentityMemory.left) refl
