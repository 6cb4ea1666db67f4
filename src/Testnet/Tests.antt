-- ===== src/Testnet/Tests.antt =====
-- A test of the helpers of a test network.
use energychain_node.Prelude.{◌≡◌, refl, codes}
use energychain_node.Outcome.{ok}
use energychain_node.Testnet.{parse_config_override, split_first}

splits_at_first :
    parse_config_override {E = Unit {0}} (codes "level=a=b") ≡ ok (codes "level", codes "a=b")
unfolding parse_config_override split_first
splits_at_first = refl
