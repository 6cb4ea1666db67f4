-- ===== src/Identity/Queries.antt =====
-- chain/x/identity/keeper/query_server.go.
pub mod Stored
use energychain_node.Prelude.{none, some, List, [], Bytes}
use energychain_node.Prelude.Int.{pos}
use energychain_node.Outcome.{Outcome, ok, err}
use energychain_node.Sdk.Paging.{answer, Paging, keep_all}
use energychain_node.Identity.Types.{Params, Identity}
use energychain_node.Identity.State.{Keeper, State}
use energychain_node.Identity.Keeper.{get_identity, get_params}

pub data QueryError : Type 0 where
  identity_not_found paginating_failed : QueryError

-- The answer for a stale entry of the index: an identity with nothing but the address.
abbrev pub placeholder : Bytes → Identity
placeholder address = record {
  address = address;
  name = [];
  role = [];
  status = [];
  metadata = [];
  registered_at = pos 0;
  updated_at = pos 0;
}

module _ ⦃k : Keeper⦄ where
  unfoldable pub identity : State → Bytes → Outcome QueryError Identity
  identity s address = elim (get_identity s address) [
    | none ↦ err identity_not_found
    | some i ↦ ok i
  ]

  -- The transformation of an entry of the index.
  unfoldable pub resolve : State → (Bytes × Bytes) × Unit {0} → Identity
  resolve s ((_, address), _) = elim (get_identity s address) [
    | none ↦ placeholder address
    | some i ↦ i
  ]

  unfoldable pub identities_by_role :
      (paging : Paging k.by_role Bytes)
      → State
      → Bytes
      → paging.Request
      → Outcome QueryError (List Identity × paging.Response)
  identities_by_role paging s role req =
      answer k.by_role paging paginating_failed (resolve s)
        (paging.visit s.by_role (some role) req keep_all)

  unfoldable pub all_identities :
      (paging : Paging k.identities (Unit {0}))
      → State
      → paging.Request
      → Outcome QueryError (List Identity × paging.Response)
  all_identities paging s req =
      answer k.identities paging paginating_failed (λ e. e.1)
        (paging.visit s.identities none req keep_all)

  unfoldable pub params : State → Outcome QueryError Params
  params s = ok (get_params s)
