-- ===== src/ChainGenesis/Tests.antt =====
-- A test of the default genesis state of the EVM module.
use energychain_node.Prelude.{◌≡◌, refl, [], ◌∷◌, Bytes, codes, List, take}
use energychain_node.ChainGenesis.{EvmGenesis, new_evm_genesis_state}
use energychain_node.Hex.{compare_le}

abbrev default_state : EvmGenesis (Unit {0}) (Unit {0})
default_state = record { active_static_precompiles = []; preinstalls = tt; rest = tt }

-- The bech32 precompile and one with a higher address than the chain's own.
abbrev built_in : List Bytes
built_in =
    codes "0x0000000000000000000000000000000000000a00"
    ∷ codes "0x0000000000000000000000000000000000000400"
    ∷ []

abbrev active : List Bytes
active = (new_evm_genesis_state default_state built_in tt).active_static_precompiles

-- The one with the lower address stands first.
lowest_first : take 1 active ≡ codes "0x0000000000000000000000000000000000000400" ∷ []
unfolding new_evm_genesis_state compare_le
lowest_first = refl
