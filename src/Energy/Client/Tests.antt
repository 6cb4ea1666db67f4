-- ===== src/Energy/Client/Tests.antt =====
-- A test of the client of the energy module.
use energychain_node.Prelude.{◌≡◌, refl, codes}
use energychain_node.Energy.Client.{
  normalise_hex, trim_left, trim_right, with_prefix, is_hex, all_hex_digits,
}

adds_prefix : normalise_hex (codes " ABCD ") ≡ codes "0xABCD"
unfolding normalise_hex trim_left trim_right with_prefix is_hex all_hex_digits
adds_prefix = refl
