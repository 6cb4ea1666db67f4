-- ===== src/Identity/Tests.antt =====
-- The theorems on the identity module at concrete inputs, on collections that are lists in memory.
use energychain_node.Prelude.{
  ◌≡◌, ◌↔◌, refl, true, false, some, codes, list_eq, ℕ_eq, pair_eq, unit_eq,
}
use energychain_node.Identity.Keeper as IdentityKeeper
use energychain_node.Identity.MsgServer.{is_admin, registered_identity, register_identity}
use energychain_node.Identity.Lifecycle.{IsConsistent, Follows}
use energychain_node.Identity.Lifecycle.Handlers.{Steps, done, registered, revoked, Steps-keeps}
use energychain_node.Identity.Access.{register_identity-registered, revoke_identity-for_good}
use energychain_node.Identity.Invariants.{
  by_role_consistency_invariant, address_key_matches_value_invariant,
}
use energychain_node.Identity.Invariants.Index.{invariants-IsConsistent}
use energychain_node.Prelude.{[], ◌∷◌}
use energychain_node.Outcome.{ok}
use energychain_node.Sdk.OnePage.{one_page}
use energychain_node.Identity.Queries.{identities_by_role, resolve}
use energychain_node.Identity.Memory.{
  leave, joined, left, join_accepted, leave_accepted, joined-IsConsistent, identity_memory,
  empty_state, empty_state-IsConsistent, block, join,
}

register_identity-registered_example :
    (is_admin empty_state (codes "gov") ≡ true)
    × (IdentityKeeper.is_registered empty_state (codes "alice") ≡ false)
    × (IdentityKeeper.get_identity joined (codes "alice") ≡ some (registered_identity block join))
    × (IdentityKeeper.has_role joined (codes "alice") (codes "producer") ≡ true)
register_identity-registered_example =
    register_identity-registered block join empty_state join_accepted

in_and_out : Steps empty_state left
in_and_out = registered block join empty_state left (revoked block leave joined left (done left))

Steps-keeps_example : IsConsistent left × Follows empty_state left
Steps-keeps_example = Steps-keeps empty_state left empty_state-IsConsistent in_and_out

-- Registering again does not bring the role back.
again : Steps left (register_identity block join left).1
again = registered block join left _ (done _)

revoke_identity-for_good_example :
    (is_admin joined (codes "gov") ≡ true)
    × (IdentityKeeper.has_role
          (register_identity block join left).1
          (codes "alice")
          (codes "producer")
        ≡ false)
revoke_identity-for_good_example =
    revoke_identity-for_good block leave joined (register_identity block join left).1
      (codes "producer") joined-IsConsistent leave_accepted again

invariants-IsConsistent_example :
    ((by_role_consistency_invariant joined ≡ false)
      × (address_key_matches_value_invariant joined ≡ false))
    ↔ IsConsistent joined
invariants-IsConsistent_example = invariants-IsConsistent joined refl refl

producers_found :
    identities_by_role (one_page identity_memory.by_role (λ e. e.0)) joined (codes "producer") tt
    ≡ ok (registered_identity block join ∷ [], tt)
unfolding identities_by_role resolve register_identity is_admin IdentityKeeper.get_params
    IdentityKeeper.is_registered IdentityKeeper.set_identity IdentityKeeper.get_identity
producers_found = refl
