-- ===== src/Identity/Invariants.antt =====
-- The checks of chain/x/identity/keeper/invariants.go. Each returns whether the invariant is broken;
-- the messages are left out.
pub mod Index
use energychain_node.Prelude.{
  ℕ, ◌+◌, Bool, false, not, ◌||◌, none, some, Bytes, exceeds, leb, eqb, ◌==◌, list_eq, ℕ_eq,
  if◌then◌else◌,
}
use energychain_node.Sdk.Store.{walk_until}
use energychain_node.Sdk.Walk.{verdict, count_fault}
use energychain_node.Identity.State.{Keeper, State}
use energychain_node.Identity.Keeper as IdentityKeeper

module _ ⦃k : Keeper⦄ where
  -- The callback of the walk over the index: only a missing identity can end the walk.
  abbrev pub check_role : State → ℕ → Bytes × Bytes → Unit {0} → ℕ × Bool
  check_role s dangling key _ = elim (IdentityKeeper.get_identity s key.1) [
    | none ↦ (dangling + 1, leb 10 (dangling + 1))
    | some i ↦ (if i.role == key.0 then dangling else dangling + 1, false)
  ]

  unfoldable pub by_role_consistency_invariant : State → Bool
  by_role_consistency_invariant s =
      verdict (k.by_role.walk_fails s.by_role)
        (walk_until (check_role s) 0 (k.by_role.walk s.by_role))

  unfoldable pub address_key_matches_value_invariant : State → Bool
  address_key_matches_value_invariant s = verdict (k.identities.walk_fails s.identities) (
      walk_until (count_fault (λ key i. not (key == i.address))) 0 (k.identities.walk s.identities))

  unfoldable pub metadata_within_cap_invariant : State → Bool
  metadata_within_cap_invariant s =
      let cap = (IdentityKeeper.get_params s).max_metadata_size in
      if eqb cap 0
      then false
      else verdict (k.identities.walk_fails s.identities) (
          walk_until (count_fault (λ _ i. exceeds i.metadata cap)) 0
            (k.identities.walk s.identities))

  -- `AllInvariants` stops at the first that is broken.
  unfoldable pub all_invariants : State → Bool
  all_invariants s =
      by_role_consistency_invariant s
      || address_key_matches_value_invariant s
      || metadata_within_cap_invariant s
