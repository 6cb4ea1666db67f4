-- ===== src/Upgrades/Tests.antt =====
-- The theorems on the upgrades at concrete inputs.
use energychain_node.Prelude.{
  ◌≡◌, ◌≢◌, refl, false, Option, some, none, inl, inr, List, Bytes, codes, arith, ◌==◌, eq_iff,
  eq-cases, if◌then◌else◌, list_eq, ℕ_eq, pair_eq, unit_eq,
}
use energychain_node.Prelude.Int.{pos}
use energychain_node.Outcome.{ok}
use energychain_node.Energy.Keeper.{get_params}
use energychain_node.Energy.Governance.{IsWithinBounds}
use energychain_node.Energy.Memory.{memory, empty_state}
use energychain_node.Upgrades.{
  UpgradeEntry, UpgradeInfo, UpgradeKeeper, Registered, upgrade_name, register_upgrades,
  register_upgrade_handlers,
}
use energychain_node.Upgrades.MetadataCap.{bump_energy_metadata_cap}
use energychain_node.Upgrades.Idempotent.{IsBumped, bump_energy_metadata_cap-IsBumped}
use energychain_node.Upgrades.Loader.{
  IsLast, IsUnnamed, LoaderCase, register_upgrade_handlers-installs,
}

empty_bounds : IsWithinBounds (get_params empty_state)
unfolding get_params
empty_bounds = record {
  batch_pos = omega arith;
  batch_le = omega arith;
  metadata_ge = omega arith;
  metadata_le = omega arith;
  submissions_le = omega arith;
}

bump_energy_metadata_cap-IsBumped_example :
    ((bump_energy_metadata_cap empty_state).0 ≡ ok tt)
    × IsBumped empty_state (bump_energy_metadata_cap empty_state).1
bump_energy_metadata_cap-IsBumped_example =
    bump_energy_metadata_cap-IsBumped empty_state empty_bounds refl

abbrev plan : UpgradeInfo
plan = record { name = upgrade_name; height = pos 500 }

abbrev Table : Type 0
Table = Bytes → Option Bytes

abbrev set_handler : Bytes → Bytes → Table → Table
set_handler name h hs other = if name == other then some h else hs other

set_handler_self : (hs : Table) (name h : Bytes) → set_handler name h hs name ≡ some h
set_handler_self hs name h = rw ((eq_iff name name).1 refl)

set_handler_ne :
    (hs : Table) (name h other : Bytes) → name ≢ other → set_handler name h hs other ≡ hs other
set_handler_ne hs name h other n = elim (eq-cases name other) [
  | inl e ↦ absurd (n e)
  | inr (differs, _) ↦ rw differs
]

abbrev node : UpgradeKeeper Bytes
node = record {
  Handlers = Table;
  handler = λ hs. hs;
  set_upgrade_handler = set_handler;
  handler-set_self = set_handler_self;
  handler-set_ne = set_handler_ne;
  read_upgrade_info_from_disk = some plan;
  is_skip_height = λ _. false;
}

abbrev bare : Registered node
bare = record { handlers = λ _. none; store_loader = none }

abbrev table : List (UpgradeEntry Bytes)
table = register_upgrades (codes "handler")

register_upgrade_handlers-installs_example :
    (app' : Registered node) × (register_upgrade_handlers node table bare ≡ ok app')
    × ((u : UpgradeEntry Bytes) → IsLast u table → app'.handlers u.name ≡ some u.handler)
    × ((name : Bytes) → IsUnnamed name table → app'.handlers name ≡ none)
    × LoaderCase node plan table bare app'
register_upgrade_handlers-installs_example =
    register_upgrade_handlers-installs node plan table bare refl (λ e. cc)
