-- ===== src/Identity/Invariants/Index.antt =====
-- The checks of chain/x/identity/keeper/invariants.go say what they are for.
use energychain_node.Prelude.{
  ◌≤◌, ◌≡◌, ◌↔◌, false, not, inl, inr, arith, Bytes, ◌==◌, eq_iff, list_eq, ℕ_eq, ℕ,
}
use energychain_node.Sdk.Store.{found}
use energychain_node.Sdk.Laws.{Lookup-cases}
use energychain_node.Sdk.Walk.{verdict-exact, count_fault-exact}
use energychain_node.Identity.Types.{Identity}
use energychain_node.Identity.State.{Keeper, State}
use energychain_node.Identity.Keeper as IdentityKeeper
use energychain_node.Identity.Lifecycle.{IsConsistent}
use energychain_node.Identity.Invariants.{
  check_role, by_role_consistency_invariant, address_key_matches_value_invariant,
}

module _ ⦃k : Keeper⦄ (s : State) where
  abbrev pub HasIdentity : Bytes × Bytes → Type 0
  HasIdentity key =
      (i : Identity) × (k.identities.get s.identities key.1 ≡ found i) × (i.role ≡ key.0)

  check_role-HasIdentity :
      (key : Bytes × Bytes) → HasIdentity key → check_role s 0 key tt ≡ (0, false)
  unfolding IdentityKeeper.get_identity
  check_role-HasIdentity key (i, there, same) = ground (arith, eq_iff i.role key.0)

  check_role-le : (c : ℕ) (key : Bytes × Bytes) → c ≤ (check_role s c key tt).0
  unfolding IdentityKeeper.get_identity
  check_role-le c key = ground arith

  check_role_zero : (key : Bytes × Bytes) → (check_role s 0 key tt).0 ≡ 0 → HasIdentity key
  unfolding IdentityKeeper.get_identity
  check_role_zero key e = elim (Lookup-cases (k.identities.get s.identities key.1)) [
    | inl (i, there) ↦ (i, there, ground (arith, eq_iff i.role key.0))
    | inr (inl missing) ↦ absurd (ground arith)
    | inr (inr bad) ↦ absurd (ground arith)
  ]

  by_role_consistency_invariant-exact :
      k.by_role.walk_fails s.by_role ≡ false
      → (by_role_consistency_invariant s ≡ false) ↔ (
          (key : Bytes × Bytes) (u : Unit {0})
          → k.by_role.get s.by_role key ≡ found u
          → HasIdentity key)
  unfolding by_role_consistency_invariant
  by_role_consistency_invariant-exact ends =
      verdict-exact (check_role s) (λ key _. HasIdentity key) (λ n key _. check_role-le n key)
        (λ key _ h. check_role-HasIdentity key h) (λ key _ e. check_role_zero key e) k.by_role
        s.by_role ends

  address_key_matches_value_invariant-exact :
      k.identities.walk_fails s.identities ≡ false
      → (address_key_matches_value_invariant s ≡ false) ↔ (
          (a : Bytes) (i : Identity)
          → k.identities.get s.identities a ≡ found i
          → not (a == i.address) ≡ false)
  unfolding address_key_matches_value_invariant
  address_key_matches_value_invariant-exact ends =
      count_fault-exact (λ a i. not (a == i.address)) k.identities s.identities ends

  -- On a store whose two walks end without an error, the check of the role index and the check of
  -- the keys both pass exactly if the store is consistent.
  pub invariants-IsConsistent :
      k.by_role.walk_fails s.by_role ≡ false
      → k.identities.walk_fails s.identities ≡ false
      → ((by_role_consistency_invariant s ≡ false)
          × (address_key_matches_value_invariant s ≡ false))
        ↔ IsConsistent s
  invariants-IsConsistent roles_end ends =
      let (role_sound, role_complete) = by_role_consistency_invariant-exact roles_end in
      let (key_sound, key_complete) = address_key_matches_value_invariant-exact ends in
      (
        λ (roles, keys). record {
          keyed = λ a i g. ground (arith, key_sound keys a i g, eq_iff a i.address);
          roles = λ r a g. role_sound roles (r, a) tt g;
        },
        λ h. (
          role_complete (λ key u g. h.roles key.0 key.1 g),
          key_complete (λ a i g. ground (arith, h.keyed a i g, eq_iff a i.address)),
        ),
      )
