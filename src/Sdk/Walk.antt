-- ===== src/Sdk/Walk.antt =====
-- The invariant checks walk a collection and count the entries at fault, with an early stop.
use energychain_node.Prelude.{
  ℕ, ◌+◌, ◌≤◌, ◌≡◌, refl, ◌↔◌, Bool, true, false, not, ◌&&◌, List, [], ◌∷◌, arith, All, All-In,
  All-intro, ltb, leb, if◌then◌else◌,
}
use energychain_node.Sdk.Store.{Store, found, walk_until}

-- The verdict on the entries at fault that a walk has counted.
abbrev pub verdict : Bool → ℕ × Bool → Bool
verdict fails r = if fails && not r.1 then true else ltb 0 r.0

-- A callback that counts what `fault` picks out and stops at ten.
abbrev pub count_fault : {K V : Type 0} → (K → V → Bool) → ℕ → K → V → ℕ × Bool
count_fault fault violations key v =
    if fault key v then (violations + 1, leb 10 (violations + 1)) else (violations, false)

module _ {K V : Type 0} (step : ℕ → K → V → ℕ × Bool) (P : K → V → Type 0)
    (grows : (n : ℕ) (key : K) (v : V) → n ≤ (step n key v).0)
    (good : (key : K) (v : V) → P key v → step 0 key v ≡ (0, false))
    (fault : (key : K) (v : V) → (step 0 key v).0 ≡ 0 → P key v) where
  walk-le : (c : ℕ) (l : List (K × V)) → c ≤ (walk_until step c l).0
  walk-le c [] = omega arith
  walk-le c ((key, v) ∷ l) = ground (arith, grows c key v, walk-le (step c key v).0 l)

  walk_sound : (l : List (K × V)) → (walk_until step 0 l).0 ≡ 0 → All (λ e. P e.0 e.1) l
  walk_sound [] e = tt
  walk_sound ((key, v) ∷ l) e =
      let zero_here : (step 0 key v).0 ≡ 0 = ground (arith, walk-le (step 0 key v).0 l) in
      let first = fault key v zero_here in (first, walk_sound l (rw (good key v first) at e))

  walk_complete : (l : List (K × V)) → All (λ e. P e.0 e.1) l → walk_until step 0 l ≡ (0, false)
  walk_complete [] h = refl
  walk_complete ((key, v) ∷ l) (first, rest) = rw (good key v first) (walk_complete l rest)

  pub verdict-exact :
      (st : Store K V) (m : st.Carrier)
      → st.walk_fails m ≡ false
      → (verdict (st.walk_fails m) (walk_until step 0 (st.walk m)) ≡ false)
        ↔ ((key : K) (v : V) → st.get m key ≡ found v → P key v)
  verdict-exact st m ends = (
    λ pass key v g.
        All-In (λ e. P e.0 e.1) (st.walk m) (walk_sound (st.walk m) (ground arith)) (key, v)
          (st.walk_complete m key v ends g),
    λ all.
        rw
          (walk_complete (st.walk m) (
            All-intro (λ e. P e.0 e.1) (st.walk m)
              (λ e i. all e.0 e.1 (st.walk_sound m e.0 e.1 i))))
          (ground arith),
  )

module _ {K V : Type 0} (fault : K → V → Bool) where
  -- A check that counts entries at fault passes exactly on the collections without one.
  pub count_fault-exact :
      (st : Store K V) (m : st.Carrier)
      → st.walk_fails m ≡ false
      → (verdict (st.walk_fails m) (walk_until (count_fault fault) 0 (st.walk m)) ≡ false)
        ↔ ((key : K) (v : V) → st.get m key ≡ found v → fault key v ≡ false)
  count_fault-exact =
      verdict-exact (count_fault fault) (λ key v. fault key v ≡ false) (λ n key v. ground arith)
        (λ key v h. ground arith) (λ key v h. ground arith)
