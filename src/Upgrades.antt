-- ===== src/Upgrades.antt =====
-- `RegisterUpgradeHandlers` of chain/upgrades.go: the table of upgrades, the handlers that are
-- registered, and the store loader that is installed when the node stands at one of them.
pub mod MetadataCap
pub mod Idempotent
pub mod Loader
mod Tests
use energychain_node.Prelude.{
  ℕ, Bool, ◌≡◌, ◌≢◌, Option, none, some, List, [], ◌∷◌, Bytes, codes, ◌==◌, list_eq, ℕ_eq,
  if◌then◌else◌, not,
}
use energychain_node.Prelude.Int.{ℤ}
use energychain_node.Outcome.{Outcome, ok, panic}

-- `storetypes.StoreUpgrades`
pub record StoreUpgrades : Type 0 where
  pub added : List Bytes
  pub renamed : List (Bytes × Bytes)
  pub deleted : List Bytes

-- `upgradeEntry`: the handler is what `createHandler` makes of the app.
pub record UpgradeEntry (Handler : Type 0) : Type 0 where
  pub name : Bytes
  pub handler : Handler
  pub store_upgrades : StoreUpgrades

pub record UpgradeInfo : Type 0 where
  pub name : Bytes
  pub height : ℤ

-- The upgrade keeper of the SDK: its map of handlers, in which a handler replaces an earlier one of
-- the same name, and what it answers; `none` is a failing read.
pub record UpgradeKeeper (Handler : Type 0) : Type 1 where
  pub Handlers : Type 0
  pub handler : Handlers → Bytes → Option Handler
  pub set_upgrade_handler : Bytes → Handler → Handlers → Handlers
  pub handler-set_self :
      (hs : Handlers) (name : Bytes) (h : Handler)
      → handler (set_upgrade_handler name h hs) name ≡ some h
  pub handler-set_ne :
      (hs : Handlers) (name : Bytes) (h : Handler) (other : Bytes)
      → name ≢ other
      → handler (set_upgrade_handler name h hs) other ≡ handler hs other
  pub read_upgrade_info_from_disk : Option UpgradeInfo
  pub is_skip_height : ℤ → Bool

-- What the registration changes of the app: the handlers of the keeper, and the height and the store
-- upgrades of the store loader.
pub record Registered {Handler : Type 0} (k : UpgradeKeeper Handler) : Type 0 where
  pub handlers : k.Handlers
  pub store_loader : Option (ℤ × StoreUpgrades)

-- `v1_0_1.UpgradeName`
abbrev pub upgrade_name : Bytes
upgrade_name = codes "v1.0.1"

-- `v1_0_1.StoreUpgrades`
abbrev pub no_store_upgrades : StoreUpgrades
no_store_upgrades = record { added = []; renamed = []; deleted = [] }

module _ {Handler : Type 0} where
  -- The table, on the handler that `v1_0_1.CreateUpgradeHandler` makes.
  unfoldable pub register_upgrades : Handler → List (UpgradeEntry Handler)
  register_upgrades handler =
      record { name = upgrade_name; handler = handler; store_upgrades = no_store_upgrades } ∷ []

module _ {Handler : Type 0} (k : UpgradeKeeper Handler) where
  -- The first loop.
  unfoldable pub set_upgrade_handlers : List (UpgradeEntry Handler) → Registered k → Registered k
  set_upgrade_handlers [] app = app
  set_upgrade_handlers (u ∷ rest) app =
      set_upgrade_handlers rest
        (record app { handlers = k.set_upgrade_handler u.name u.handler app.handlers })

  -- The second loop.
  unfoldable pub install_store_loader :
      UpgradeInfo → List (UpgradeEntry Handler) → Registered k → Registered k
  install_store_loader info [] app = app
  install_store_loader info (u ∷ rest) app =
      let later = install_store_loader info rest app in
      if not (u.name == info.name)
      then later
      else if k.is_skip_height info.height
      then app
      else record app { store_loader = some (info.height, u.store_upgrades) }

  -- `panic` is the panic on a failing read; no error is returned.
  unfoldable pub register_upgrade_handlers :
      List (UpgradeEntry Handler) → Registered k → Outcome (Unit {0}) (Registered k)
  register_upgrade_handlers upgrades app =
      let app1 = set_upgrade_handlers upgrades app in
      elim k.read_upgrade_info_from_disk [
        | none ↦ panic
        | some info ↦
            if info.name == [] then ok app1 else ok (install_store_loader info upgrades app1)
      ]
