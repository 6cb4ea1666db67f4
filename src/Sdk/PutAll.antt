-- ===== src/Sdk/PutAll.antt =====
-- A loop that puts the entries of a list into a collection, as the loops of `InitGenesis` do.
use energychain_node.Prelude.{
  ◌≡◌, ◌≢◌, ◌⊎◌, refl, sym, ap, ◌∙◌, subst, inl, inr, true, List, [], ◌∷◌, All, In, Eq, eq-cases,
}
use energychain_node.Sdk.Store.{found, Store}

module _ {K V : Type 0} (key : V → K) where
  abbrev pub IsNew : K → List V → Type 0
  IsNew k vs = All (λ v. key v ≢ k) vs

  abbrev pub IsDistinct : List V → Type 0
  IsDistinct [] = Unit
  IsDistinct (v ∷ vs) = IsNew (key v) vs × IsDistinct vs

module _ {K W V : Type 0} ⦃e : Eq K⦄ (store : Store K W) (key : V → K) (val : V → W) where
  abbrev pub put_all : List V → store.Carrier → store.Carrier
  put_all [] m = m
  put_all (v ∷ vs) m = put_all vs (store.put m (key v) (val v))

  -- Every entry has an encoding.
  abbrev pub Fits : List V → Type 0
  Fits vs = All (λ v. store.encodes (key v) (val v) ≡ true) vs

  -- What is found was put, or was there.
  pub put_all-found :
      (vs : List V) (m : store.Carrier) (k : K) (w : W)
      → Fits vs
      → store.get (put_all vs m) k ≡ found w
      → ((v : V) × In v vs × (key v ≡ k) × (val v ≡ w)) ⊎ (store.get m k ≡ found w)
  put_all-found [] m k w fits g = inr g
  put_all-found (v ∷ vs) m k w (fit, fits) g =
      elim (put_all-found vs (store.put m (key v) (val v)) k w fits g) [
        | inl (u, i, p, q) ↦ inl (u, inr i, p, q)
        | inr there ↦ elim (eq-cases (key v) k) [
          | inl p ↦
              let self = store.get-put_self m (key v) (val v) fit in
              let at : store.get (store.put m (key v) (val v)) (key v) ≡ found w =
                ap (store.get (store.put m (key v) (val v))) p ∙ there in
              let same : val v ≡ w = cc (self, at) in inl (v, inl refl, p, same)
          | inr (_, ne) ↦ inr (sym (store.get-put_ne m (key v) (val v) k fit ne) ∙ there)
        ]
      ]

  pub put_all-skips :
      (vs : List V) (m : store.Carrier) (k : K)
      → Fits vs
      → IsNew key k vs
      → store.get (put_all vs m) k ≡ store.get m k
  put_all-skips [] m k fits new = refl
  put_all-skips (v ∷ vs) m k (fit, fits) (ne, new) =
      put_all-skips vs (store.put m (key v) (val v)) k fits new
      ∙ store.get-put_ne m (key v) (val v) k fit ne

  -- Under distinct keys, everything that was put is found.
  pub put_all-In :
      (vs : List V) (m : store.Carrier) (v : V)
      → Fits vs
      → IsDistinct key vs
      → In v vs
      → store.get (put_all vs m) (key v) ≡ found (val v)
  put_all-In [] m v fits d i = elim i [ ]
  put_all-In (u ∷ vs) m v (fit, fits) (new, d) (inl p) =
      subst (λ x. store.get (put_all (u ∷ vs) m) (key x) ≡ found (val x)) (sym p)
        (put_all-skips vs (store.put m (key u) (val u)) (key u) fits new
          ∙ store.get-put_self m (key u) (val u) fit)
  put_all-In (u ∷ vs) m v (fit, fits) (new, d) (inr i) =
      put_all-In vs (store.put m (key u) (val u)) v fits d i

  -- So is what was put under a key with one value only.
  pub put_all-one_value :
      (vs : List V) (m : store.Carrier) (k : K) (w : W)
      → Fits vs
      → ((v : V) → In v vs → key v ≡ k → val v ≡ w)
      → ((v : V) × In v vs × (key v ≡ k)) ⊎ (store.get m k ≡ found w)
      → store.get (put_all vs m) k ≡ found w
  put_all-one_value [] m k w fits one (inl (v, i, p)) = elim i [ ]
  put_all-one_value [] m k w fits one (inr there) = there
  put_all-one_value (u ∷ vs) m k w (fit, fits) one at =
      let m' = store.put m (key u) (val u) in
      let next : ((v : V) × In v vs × (key v ≡ k)) ⊎ (store.get m' k ≡ found w) =
        elim (eq-cases (key u) k) [
          | inl p ↦ inr (
              subst (λ x. store.get m' x ≡ found w) p
                (store.get-put_self m (key u) (val u) fit ∙ ap found (one u (inl refl) p)))
          | inr (_, ne) ↦ elim at [
            | inl (v, inl e, p) ↦ absurd (ne (ap key (sym e) ∙ p))
            | inl (v, inr i, p) ↦ inl (v, i, p)
            | inr there ↦ inr (store.get-put_ne m (key u) (val u) k fit ne ∙ there)
          ]
        ] in
      put_all-one_value vs m' k w fits (λ v i. one v (inr i)) next
