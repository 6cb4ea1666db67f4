-- ===== src/Energy/Consistency/Items.antt =====
-- The loop of the batch handler: the items are stored under consecutive identifiers.
use native.Mathlib.Nat.{add-zero}
use energychain_node.Prelude.{
  ℕ, suc, ◌+◌, ◌^◌, ◌≤◌, ◌<◌, ◌≡◌, subst, List, [], ◌∷◌, arith, Bytes, length, list_eq, ℕ_eq,
}
use energychain_node.Outcome.{Ends, Ends-bind, Ends-weaken}
use energychain_node.Sdk.Store.{found}
use energychain_node.Sdk.Context.{Context}
use energychain_node.Energy.Types.{EnergyData, BatchItem, MsgBatchSubmit}
use energychain_node.Energy.EnergyId.{energy_id}
use energychain_node.Energy.State.{Keeper, State}
use energychain_node.Energy.MsgServer.{item_data, submit_items}
use energychain_node.Energy.Consistency.{
  IsConsistent, Extends, Extends-refl, Extends-trans, Progress,
}
use energychain_node.Energy.Consistency.Steps.{Kept, Stored, Issued, generate_id-Issued}
use energychain_node.Energy.Consistency.Handlers.{store_fresh, Progress-of_Kept}

-- The loop over the items: `count` identifiers are used.
module _ ⦃k : Keeper⦄ (ctx : Context) (msg : MsgBatchSubmit) where
  -- The items stand under consecutive identifiers, from the one after `n`.
  abbrev pub ItemsStored : ℕ → List BatchItem → State → Type 0
  ItemsStored n [] s = Unit
  ItemsStored n (item ∷ items) s =
      (k.energy_data.get s.energy_data (energy_id (suc n))
        ≡ found (item_data ctx msg item (energy_id (suc n))))
      × ItemsStored (suc n) items s

  pub ItemsStored-kept :
      (n : ℕ) (items : List BatchItem) (s t : State)
      → ((i : Bytes) (d : EnergyData)
          → k.energy_data.get s.energy_data i ≡ found d
          → k.energy_data.get t.energy_data i ≡ found d)
      → ItemsStored n items s
      → ItemsStored n items t
  ItemsStored-kept n [] s t x h = tt
  ItemsStored-kept n (item ∷ items) s t x h = (x _ _ h.0, ItemsStored-kept (suc n) items s t x h.1)

  abbrev pub AllStored : ℕ → List BatchItem → State → State → Type 0
  AllStored n items s s' =
      IsConsistent (n + length items) s' × Extends s s' × ItemsStored n items s'

  AllStored-cons :
      (item : BatchItem) (items : List BatchItem) (n : ℕ) (s v t : State)
      → Extends s v
      → k.energy_data.get v.energy_data (energy_id (suc n))
        ≡ found (item_data ctx msg item (energy_id (suc n)))
      → AllStored (suc n) items v t
      → AllStored n (item ∷ items) s t
  AllStored-cons item items n s v t x there (c, y, stored) = (
    subst (λ m. IsConsistent m t) (omega arith) c,
    Extends-trans x y,
    (y.data_kept _ _ there, stored),
  )

  pub Progress-since :
      (lo lo' hi hi' : ℕ) (s v t : State)
      → Extends s v
      → lo ≤ lo'
      → hi' ≤ hi
      → Progress lo' hi' v t
      → Progress lo hi s t
  Progress-since lo lo' hi hi' s v t x l u (m, l', u', c, y) =
      (m, omega arith, omega arith, c, Extends-trans x y)

  pub submit_items-AllStored :
      (items : List BatchItem) (n : ℕ) (s : State)
      → IsConsistent n s
      → n + length items < 2 ^ 64
      → Ends
          (λ _. AllStored n items s)
          (Progress n (n + length items) s)
          (submit_items ctx msg items s)
  unfolding submit_items
  submit_items-AllStored [] n s h l = (rw (add-zero n) h, Extends-refl s, tt)
  submit_items-AllStored (item ∷ items) n s h l =
      let hi = n + suc (length items) in
      let d = item_data ctx msg item in
      Ends-bind (Issued n s) (Kept n s) (λ _. AllStored n (item ∷ items) s) (Progress n hi s) _ _
        (generate_id-Issued n s h (omega arith))
        (Progress-of_Kept n s n hi n (omega arith) (omega arith))
        (λ id u i.
          Ends-bind (λ _. Stored (suc n) s (d id)) (Kept (suc n) s)
            (λ _. AllStored n (item ∷ items) s) (Progress n hi s) _ _
            (store_fresh n s (d id) u (omega arith) i)
            (Progress-of_Kept n s n hi (suc n) (omega arith) (omega arith))
            (λ _ v w.
              Ends-weaken (λ _. AllStored (suc n) items v) (λ _. AllStored n (item ∷ items) s)
                (Progress (suc n) (suc n + length items) v) (Progress n hi s) _
                (λ _ t.
                  AllStored-cons item items n s v t w.1
                    (subst (λ j. k.energy_data.get v.energy_data j ≡ found (d j)) i.issued w.2))
                (λ t.
                  Progress-since n (suc n) hi (suc n + length items) s v t w.1 (omega arith)
                    (omega arith))
                (submit_items-AllStored items (suc n) v w.0 (omega arith))))
