-- ===== src/ChainGenesis.antt =====
-- The default genesis states of chain/genesis.go.
pub mod Sorted
mod Tests
use energychain_node.Prelude.{Bool, true, false, List, [], ◌∷◌, ◌++◌, Bytes, codes, if◌then◌else◌}
use energychain_node.Hex.{compare_le}

abbrev pub native_denom : Bytes
native_denom = codes "uecy"

abbrev pub native_erc20_contract : Bytes
native_erc20_contract = codes "0xEeeeeEeeeEeEeeEeEeEeeEEEeeeeEeeeeeeeEEeE"

-- `PrecompileAddress` of the two precompiles.
abbrev pub energy_precompile_address : Bytes
energy_precompile_address = codes "0x0000000000000000000000000000000000000900"

abbrev pub identity_precompile_address : Bytes
identity_precompile_address = codes "0x0000000000000000000000000000000000000901"

-- `sort.Strings`
abbrev pub insert : Bytes → List Bytes → List Bytes
insert x [] = x ∷ []
insert x (y ∷ ys) = let later = insert x ys in if compare_le x y then x ∷ y ∷ ys else y ∷ later

abbrev pub sort_strings : List Bytes → List Bytes
sort_strings [] = []
sort_strings (x ∷ xs) = insert x (sort_strings xs)

-- The fields of the EVM module's genesis state that are set here; `Rest` stands for the others.
pub record EvmGenesis (Preinstalls Rest : Type 0) : Type 0 where
  pub active_static_precompiles : List Bytes
  pub preinstalls : Preinstalls
  pub rest : Rest

pub record TokenPair : Type 0 where
  pub erc20_address : Bytes
  pub denom : Bytes
  pub enabled : Bool
  pub owned_by_module : Bool

pub record Erc20Genesis (Rest : Type 0) : Type 0 where
  pub token_pairs : List TokenPair
  pub native_precompiles : List Bytes
  pub rest : Rest

pub record MintGenesis (Rest : Type 0) : Type 0 where
  pub mint_denom : Bytes
  pub rest : Rest

pub record FeeMarketGenesis (Rest : Type 0) : Type 0 where
  pub no_base_fee : Bool
  pub rest : Rest

-- The defaults and the available precompiles of the EVM library are given.
module _ {Preinstalls Rest : Type 0} where
  unfoldable pub new_evm_genesis_state :
      EvmGenesis Preinstalls Rest → List Bytes → Preinstalls → EvmGenesis Preinstalls Rest
  new_evm_genesis_state default available default_preinstalls = record default {
    active_static_precompiles =
        sort_strings (available ++ (energy_precompile_address ∷ identity_precompile_address ∷ []));
    preinstalls = default_preinstalls;
  }

module _ {Rest : Type 0} where
  unfoldable pub new_erc20_genesis_state : Erc20Genesis Rest → Erc20Genesis Rest
  new_erc20_genesis_state default = record default {
    token_pairs =
        record {
          erc20_address = native_erc20_contract;
          denom = native_denom;
          enabled = true;
          owned_by_module = true;
        }
        ∷ [];
    native_precompiles = native_erc20_contract ∷ [];
  }

  unfoldable pub new_mint_genesis_state : MintGenesis Rest → MintGenesis Rest
  new_mint_genesis_state default = record default { mint_denom = native_denom }

  unfoldable pub new_fee_market_genesis_state : FeeMarketGenesis Rest → FeeMarketGenesis Rest
  new_fee_market_genesis_state default = record default { no_base_fee = false }
