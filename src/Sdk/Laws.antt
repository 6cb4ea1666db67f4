-- ===== src/Sdk/Laws.antt =====
-- The laws of a collection over keys with an equality test, as one equation each.
use energychain_node.Prelude.{
  ◌≡◌, refl, ◌⊎◌, Bool, true, inl, inr, Eq, ◌==◌, eq_iff, if◌then◌else◌, Bool-cases, ap, ◌∙◌, sym,
}
use energychain_node.Sdk.Store.{Lookup, found, not_found, failed, Store}

pub Lookup-cases :
    {V : Type 0} (l : Lookup V) → ((v : V) × (l ≡ found v)) ⊎ ((l ≡ not_found) ⊎ (l ≡ failed))
Lookup-cases (found v) = inl (v, refl)
Lookup-cases not_found = inr (inl refl)
Lookup-cases failed = inr (inr refl)

module _ {K V : Type 0} ⦃e : Eq K⦄ (st : Store K V) where
  pub get-put :
      (m : st.Carrier) (k : K) (v : V) (j : K)
      → st.encodes k v ≡ true
      → st.get (st.put m k v) j ≡ (if k == j then found v else st.get m j)
  get-put m k v j c = elim (Bool-cases (k == j)) [
    | inl same ↦
        rw same (ap (st.get (st.put m k v)) (sym ((eq_iff k j).0 same)) ∙ st.get-put_self m k v c)
    | inr other ↦ rw other (st.get-put_ne m k v j c (λ p. cc ((eq_iff k j).1 p)))
  ]

  pub get-delete :
      (m : st.Carrier) (k j : K)
      → st.encodes_key k ≡ true
      → st.get (st.delete m k) j ≡ (if k == j then not_found else st.get m j)
  get-delete m k j c = elim (Bool-cases (k == j)) [
    | inl same ↦
        rw same (ap (st.get (st.delete m k)) (sym ((eq_iff k j).0 same)) ∙ st.get-delete_self m k c)
    | inr other ↦ rw other (st.get-delete_ne m k j c (λ p. cc ((eq_iff k j).1 p)))
  ]

-- A collection that is a set: a new entry takes none away.
module _ {K : Type 0} ⦃e : Eq K⦄ (st : Store K (Unit {0})) where
  pub get-put_entry :
      (m : st.Carrier) (k j : K)
      → st.encodes k tt ≡ true
      → st.get m j ≡ found tt
      → st.get (st.put m k tt) j ≡ found tt
  get-put_entry m k j c there =
      let pick = λ (b : Bool). if b then found tt else st.get m j in
      elim (Bool-cases (k == j)) [
        | inl same ↦ get-put st m k tt j c ∙ ap pick same
        | inr other ↦ get-put st m k tt j c ∙ ap pick other ∙ there
      ]
