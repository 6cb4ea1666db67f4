-- ===== src/Upgrades/Loader.antt =====
-- Which handlers and which store loader `RegisterUpgradeHandlers` of chain/upgrades.go installs.
use energychain_node.Prelude.{
  ◌≡◌, ◌≢◌, ◌⊎◌, refl, ap, ◌∙◌, subst, true, false, some, inl, inr, List, [], ◌∷◌, All, Bytes,
  list_eq, ℕ_eq, eq-cases, eq_iff, Bool-cases,
}
use energychain_node.Outcome.{ok}
use energychain_node.Upgrades.{
  UpgradeEntry, UpgradeInfo, UpgradeKeeper, Registered, set_upgrade_handlers, install_store_loader,
  register_upgrade_handlers,
}

module _ {Handler : Type 0} where
  -- No entry has the name.
  abbrev pub IsUnnamed : Bytes → List (UpgradeEntry Handler) → Type 0
  IsUnnamed name us = All (λ u. u.name ≢ name) us

  -- `u` is the last entry of its name.
  abbrev pub IsLast : UpgradeEntry Handler → List (UpgradeEntry Handler) → Type 0
  IsLast u [] = ⊥
  IsLast u (v ∷ us) = ((v ≡ u) × IsUnnamed v.name us) ⊎ IsLast u us

  -- `u` is the first entry of its name.
  abbrev pub IsFirst : UpgradeEntry Handler → List (UpgradeEntry Handler) → Type 0
  IsFirst u [] = ⊥
  IsFirst u (v ∷ us) = (v ≡ u) ⊎ ((v.name ≢ u.name) × IsFirst u us)

module _ {Handler : Type 0} (k : UpgradeKeeper Handler) where
  set_upgrade_handlers-IsUnnamed :
      (us : List (UpgradeEntry Handler)) (app : Registered k) (name : Bytes)
      → IsUnnamed name us
      → k.handler (set_upgrade_handlers k us app).handlers name ≡ k.handler app.handlers name
  unfolding set_upgrade_handlers
  set_upgrade_handlers-IsUnnamed [] app name h = refl
  set_upgrade_handlers-IsUnnamed (u ∷ us) app name (n, h) =
      let hs = k.set_upgrade_handler u.name u.handler app.handlers in
      set_upgrade_handlers-IsUnnamed us (record app { handlers = hs }) name h
      ∙ k.handler-set_ne app.handlers u.name u.handler name n

  set_upgrade_handlers-IsLast :
      (us : List (UpgradeEntry Handler)) (app : Registered k) (u : UpgradeEntry Handler)
      → IsLast u us
      → k.handler (set_upgrade_handlers k us app).handlers u.name ≡ some u.handler
  unfolding set_upgrade_handlers
  set_upgrade_handlers-IsLast [] app u h = elim h [ ]
  set_upgrade_handlers-IsLast (v ∷ us) app u (inl (e, h)) =
      let app1 = record app { handlers = k.set_upgrade_handler v.name v.handler app.handlers } in
      subst (λ x. k.handler (set_upgrade_handlers k us app1).handlers x.name ≡ some x.handler) e
        (set_upgrade_handlers-IsUnnamed us app1 v.name h
          ∙ k.handler-set_self app.handlers v.name v.handler)
  set_upgrade_handlers-IsLast (v ∷ us) app u (inr h) =
      let hs = k.set_upgrade_handler v.name v.handler app.handlers in
      set_upgrade_handlers-IsLast us (record app { handlers = hs }) u h

  set_upgrade_handlers-loader :
      (us : List (UpgradeEntry Handler)) (app : Registered k)
      → (set_upgrade_handlers k us app).store_loader ≡ app.store_loader
  unfolding set_upgrade_handlers
  set_upgrade_handlers-loader [] app = refl
  set_upgrade_handlers-loader (u ∷ us) app =
      let hs = k.set_upgrade_handler u.name u.handler app.handlers in
      set_upgrade_handlers-loader us (record app { handlers = hs })

  -- The store loader is the one of the first entry by the name of the plan, at the plan's height; or
  -- it is left as it was, and then the height is skipped or no entry has the name.
  pub data LoaderCase (info : UpgradeInfo) (us : List (UpgradeEntry Handler))
      (app app' : Registered k) : Type 0 where
    installed :
        (u : UpgradeEntry Handler)
        → IsFirst u us
        → u.name ≡ info.name
        → k.is_skip_height info.height ≡ false
        → app'.store_loader ≡ some (info.height, u.store_upgrades)
        → LoaderCase info us app app'
    skipped :
        k.is_skip_height info.height ≡ true
        → app'.store_loader ≡ app.store_loader
        → LoaderCase info us app app'
    unknown :
        IsUnnamed info.name us → app'.store_loader ≡ app.store_loader → LoaderCase info us app app'

  LoaderCase-more :
      (info : UpgradeInfo) (us : List (UpgradeEntry Handler)) (u : UpgradeEntry Handler)
      (app app' : Registered k)
      → u.name ≢ info.name
      → LoaderCase info us app app'
      → LoaderCase info (u ∷ us) app app'
  LoaderCase-more info us u app app' n (installed v m e s l) =
      installed v (inr (λ h. n (h ∙ e), m)) e s l
  LoaderCase-more info us u app app' n (skipped s l) = skipped s l
  LoaderCase-more info us u app app' n (unknown f l) = unknown (n, f) l

  install_store_loader-cases :
      (info : UpgradeInfo) (us : List (UpgradeEntry Handler)) (app : Registered k)
      → ((install_store_loader k info us app).handlers ≡ app.handlers)
        × LoaderCase info us app (install_store_loader k info us app)
  unfolding install_store_loader
  install_store_loader-cases info [] app = (refl, unknown tt refl)
  install_store_loader-cases info (u ∷ us) app = elim (eq-cases u.name info.name) [
    | inr (other, n) ↦
        let (same, l) = install_store_loader-cases info us app in
        rw other (same, LoaderCase-more info us u app (install_store_loader k info us app) n l)
    | inl e ↦
        let found = (eq_iff u.name info.name).1 e in
        elim (Bool-cases (k.is_skip_height info.height)) [
          | inl skip ↦ rw (found, skip) (refl, skipped skip refl)
          | inr go ↦ rw (found, go) (refl, installed u (inl refl) e go refl)
        ]
  ]

  LoaderCase-from :
      (info : UpgradeInfo) (us : List (UpgradeEntry Handler)) (a b c : Registered k)
      → b.store_loader ≡ a.store_loader
      → LoaderCase info us b c
      → LoaderCase info us a c
  LoaderCase-from info us a b c e (installed v m n s l) = installed v m n s l
  LoaderCase-from info us a b c e (skipped s l) = skipped s (l ∙ e)
  LoaderCase-from info us a b c e (unknown f l) = unknown f (l ∙ e)

  -- With a plan on disk that has a name, the registration ends without a panic; the handler in force
  -- for the name of an upgrade of the table is that of the last upgrade with the name, and for any
  -- other name it is the one from before; and the store loader is the one of the first upgrade with
  -- the plan's name, at the plan's height, or, if that height is skipped or no upgrade has the name,
  -- the one from before.
  pub register_upgrade_handlers-installs :
      (info : UpgradeInfo) (us : List (UpgradeEntry Handler)) (app : Registered k)
      → k.read_upgrade_info_from_disk ≡ some info
      → info.name ≢ []
      → (app' : Registered k) × (register_upgrade_handlers k us app ≡ ok app')
        × ((u : UpgradeEntry Handler)
            → IsLast u us
            → k.handler app'.handlers u.name ≡ some u.handler)
        × ((name : Bytes)
            → IsUnnamed name us
            → k.handler app'.handlers name ≡ k.handler app.handlers name)
        × LoaderCase info us app app'
  unfolding register_upgrade_handlers install_store_loader
  register_upgrade_handlers-installs info us app read named =
      let app1 = set_upgrade_handlers k us app in
      let app' = install_store_loader k info us app1 in
      let (same, l) = install_store_loader-cases info us app1 in
      let now = λ (name : Bytes). ap (λ hs. k.handler hs name) same in
      elim (eq-cases info.name []) [
        | inl e ↦ absurd (named e)
        | inr (other, _) ↦ (
          app',
          rw (register_upgrade_handlers, read, other) refl,
          λ u m. now u.name ∙ set_upgrade_handlers-IsLast us app u m,
          λ name m. now name ∙ set_upgrade_handlers-IsUnnamed us app name m,
          LoaderCase-from info us app app1 app' (set_upgrade_handlers-loader us app) l,
        )
      ]
