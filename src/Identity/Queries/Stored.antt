-- ===== src/Identity/Queries/Stored.antt =====
-- The answers of the paginated queries of chain/x/identity/keeper/query_server.go.
use energychain_node.Prelude.{◌≡◌, refl, sym, ap, ◌∙◌, some, List, Bytes, In}
use energychain_node.Outcome.{ok}
use energychain_node.Sdk.Store.{found}
use energychain_node.Sdk.Paging.{Paging, answer-In, keep_all}
use energychain_node.Identity.Types.{Identity}
use energychain_node.Identity.State.{Keeper, State}
use energychain_node.Identity.Keeper.{get_identity}
use energychain_node.Identity.Lifecycle.{IsConsistent}
use energychain_node.Identity.Queries.{paginating_failed, resolve, identities_by_role}

module _ ⦃k : Keeper⦄ (s : State) (h : IsConsistent s) where
  resolve-found :
      (r a : Bytes) (u : Unit {0}) (i : Identity)
      → k.identities.get s.identities a ≡ found i
      → resolve s ((r, a), u) ≡ i
  unfolding resolve get_identity
  resolve-found r a u i e = rw (resolve, get_identity, e) refl

  -- On a consistent store, a query by role that succeeds answers with identities that are registered
  -- and have the role: no page has a placeholder.
  pub identities_by_role-registered :
      (paging : Paging k.by_role Bytes)
      → ((e : Bytes × Bytes) → paging.prefix_of e ≡ e.0)
      → (role : Bytes) (req : paging.Request) (is : List Identity) (page : paging.Response)
      → identities_by_role paging s role req ≡ ok (is, page)
      → (i : Identity) → In i is
      → (k.identities.get s.identities i.address ≡ found i) × (i.role ≡ role)
  unfolding identities_by_role
  identities_by_role-registered paging prefixes role req is page done i m =
      let ((r, a), u, e, entry, _, pre) =
        answer-In k.by_role paging s.by_role (some role) req keep_all paginating_failed (resolve s)
          is page i done m in
      let (j, there, same) = h.roles r a entry in
      let eq : i ≡ j = e ∙ resolve-found r a u j there in
      rw eq (
        ap (k.identities.get s.identities) (h.keyed a j there) ∙ there,
        same ∙ sym (prefixes (r, a)) ∙ pre role refl,
      )
