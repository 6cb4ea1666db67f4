-- ===== src/Energy/Queries/Stored.antt =====
-- The answers of the paginated queries of chain/x/energy/keeper/query_server.go.
use energychain_node.Prelude.{◌≡◌, refl, sym, ap, ◌∙◌, ℕ, some, List, Bytes, In}
use energychain_node.Outcome.{ok}
use energychain_node.Sdk.Store.{found}
use energychain_node.Sdk.Paging.{Paging, answer-In, keep_all}
use energychain_node.Energy.Types.{EnergyData}
use energychain_node.Energy.State.{Keeper, State}
use energychain_node.Energy.Keeper.{get_energy_data}
use energychain_node.Energy.Consistency.{IsConsistent}
use energychain_node.Energy.Queries.{paginating_failed, resolve, energy_data_by_category}

module _ ⦃k : Keeper⦄ (n : ℕ) (s : State) (h : IsConsistent n s) where
  resolve-found :
      (c i : Bytes) (u : Unit {0}) (d : EnergyData)
      → k.energy_data.get s.energy_data i ≡ found d
      → resolve s ((c, i), u) ≡ d
  unfolding resolve get_energy_data
  resolve-found c i u d e = rw (resolve, get_energy_data, e) refl

  -- On a consistent store, a query by category that succeeds answers with records that are stored and
  -- have the category: no page has a placeholder.
  pub energy_data_by_category-stored :
      (paging : Paging k.by_category Bytes)
      → ((e : Bytes × Bytes) → paging.prefix_of e ≡ e.0)
      → (category : Bytes) (req : paging.Request) (ds : List EnergyData) (page : paging.Response)
      → energy_data_by_category paging s category req ≡ ok (ds, page)
      → (d : EnergyData) → In d ds
      → (k.energy_data.get s.energy_data d.id ≡ found d) × (d.category ≡ category)
  unfolding energy_data_by_category
  energy_data_by_category-stored paging prefixes category req ds page done d i =
      let ((c, id), u, e, entry, _, pre) =
        answer-In k.by_category paging s.by_category (some category) req keep_all paginating_failed
          (resolve s) ds page d done i in
      let (r, there, same) = h.categories c id entry in
      let is : d ≡ r = e ∙ resolve-found c id u r there in
      rw is (
        ap (k.energy_data.get s.energy_data) (h.keyed id r there) ∙ there,
        same ∙ sym (prefixes (c, id)) ∙ pre category refl,
      )
