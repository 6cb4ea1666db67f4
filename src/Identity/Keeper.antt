-- ===== src/Identity/Keeper.antt =====
-- The methods of chain/x/identity/keeper/keeper.go.
use energychain_node.Prelude.{
  Bool, false, ◌&&◌, Option, none, some, List, map, Bytes, ◌==◌, list_eq, ℕ_eq, if◌then◌else◌,
}
use energychain_node.Outcome.{Exec, ◌>>◌, save}
use energychain_node.Sdk.Store.{found}
use energychain_node.Identity.Types.{Params, Identity, GenesisState, default_params, status_active}
use energychain_node.Identity.State.{
  Keeper, State, Error, store_identity, index_by_role, store_params,
}

module _ ⦃k : Keeper⦄ where
  unfoldable pub set_params : Params → Exec Error State (Unit {0})
  set_params p =
      save (k.params.encodes tt p) (λ s. record s { params = k.params.put s.params tt p })
        store_params

  unfoldable pub get_params : State → Params
  get_params s = elim (k.params.get s.params tt) [ found p ↦ p | _ ↦ default_params ]

  -- The two writes of `SetIdentity`.
  abbrev pub save_identity : Identity → Exec Error State (Unit {0})
  save_identity i =
      save (k.identities.encodes i.address i)
        (λ s. record s { identities = k.identities.put s.identities i.address i }) store_identity

  abbrev pub save_role : Identity → Exec Error State (Unit {0})
  save_role i =
      save (k.by_role.encodes (i.role, i.address) tt)
        (λ s. record s { by_role = k.by_role.put s.by_role (i.role, i.address) tt }) index_by_role

  unfoldable pub set_identity : Identity → Exec Error State (Unit {0})
  set_identity i = do save_identity i; save_role i

  unfoldable pub get_identity : State → Bytes → Option Identity
  get_identity s address = elim (k.identities.get s.identities address) [
    | found i ↦ some i
    | _ ↦ none
  ]

  -- `DeleteIdentity`: what cannot be removed stays.
  unfoldable pub delete_identity : Bytes → State → State
  delete_identity address s = elim (get_identity s address) [
    | none ↦ s
    | some i ↦
        if k.identities.encodes_key address
        then record s {
          identities = k.identities.delete s.identities address;
          by_role =
              if k.by_role.encodes_key (i.role, address)
              then k.by_role.delete s.by_role (i.role, address)
              else s.by_role;
        }
        else s
  ]

  -- What the walk has visited, also when it ends early.
  unfoldable pub get_all_identities_unbounded : State → List Identity
  get_all_identities_unbounded s = map (λ e. e.1) (k.identities.walk s.identities)

  unfoldable pub export_genesis : State → GenesisState
  export_genesis s = record { identities = get_all_identities_unbounded s; params = get_params s }

  unfoldable pub is_registered : State → Bytes → Bool
  is_registered s address = elim (k.identities.has s.identities address) [
    | none ↦ false
    | some has ↦ has
  ]

  unfoldable pub has_role : State → Bytes → Bytes → Bool
  has_role s address role = elim (get_identity s address) [
    | none ↦ false
    | some i ↦ i.role == role && i.status == status_active
  ]
