-- ===== src/Export/Reset.antt =====
-- The loops of chain/export.go that rewrite every entry of a collection while iterating over it, on
-- the entries that the collection has when the loop begins.
use energychain_node.Prelude.{
  ◌≡◌, refl, ◌⊎◌, sym, ap, ◌∙◌, subst, inl, inr, Bool, true, false, not, ◌&&◌, List, [], ◌∷◌, arith,
  All, All-intro, In, Eq, eq-cases, Bool-cases, if◌then◌else◌,
}
use energychain_node.Outcome.{ok, err, Exec}
use energychain_node.Sdk.Store.{Lookup, found, not_found, failed, Store, walk_until}
use energychain_node.Sdk.Laws.{Lookup-cases}

abbrev pub map_lookup : {V W : Type 0} → (V → W) → Lookup V → Lookup W
map_lookup f (found v) = found (f v)
map_lookup f not_found = not_found
map_lookup f failed = failed

module _ {K V : Type 0} ⦃e : Eq K⦄ (store : Store K V) (key : K → V → K) (change : V → V) where
  -- The callback: it writes the changed value back under its key, and stops if that fails; the
  -- Boolean beside the collection is `iterErr != nil`.
  abbrev pub rewrite : store.Carrier × Bool → K → V → (store.Carrier × Bool) × Bool
  rewrite m k v =
      if store.encodes (key k (change v)) (change v)
      then ((store.put m.0 (key k (change v)) (change v), false), false)
      else ((m.0, true), true)

  -- The iteration, whose own error comes first, and then `iterErr`.
  unfoldable pub reset_entries : {E : Type 0} → E → E → Exec E store.Carrier (Unit {0})
  reset_entries iteration write m =
      let r = walk_until rewrite (m, false) (store.walk m) in
      if store.walk_fails m && not r.1
      then (err iteration, r.0.0)
      else if r.0.1
      then (err write, r.0.0)
      else (ok tt, r.0.0)

  -- Every value stands under its own key, and keeps it.
  abbrev pub IsKeyed : store.Carrier → Type 0
  IsKeyed m = (k : K) (v : V) → store.get m k ≡ found v → key k (change v) ≡ k

  abbrev Own : List (K × V) → Type 0
  Own l = All (λ p. key p.0 (change p.1) ≡ p.0) l

  -- A loop that did not fail wrote the value of a key that it met.
  met :
      (l : List (K × V)) (m : store.Carrier) (k : K) (w : V)
      → Own l
      → (walk_until rewrite (m, false) l).0.1 ≡ false
      → ((v : V) → In (k, v) l → change v ≡ w)
      → ((v : V) × In (k, v) l) ⊎ (store.get m k ≡ found w)
      → store.get (walk_until rewrite (m, false) l).0.0 k ≡ found w
  met [] m k w own fine one (inl (v, i)) = elim i [ ]
  met [] m k w own fine one (inr there) = there
  met ((j, u) ∷ l) m k w (o, own) fine one at =
      let j' = key j (change u) in
      elim (Bool-cases (store.encodes j' (change u))) [
        | inr bad ↦ absurd (cc (rw bad at fine))
        | inl fit ↦
            let m' = store.put m j' (change u) in
            let here : (j ≡ k) → store.get m' k ≡ found w = λ p.
              subst (λ x. store.get m' x ≡ found w) (o ∙ p)
                (store.get-put_self m j' (change u) fit
                  ∙ ap found (one u (inl (ap (λ x. (x, u)) (sym p))))) in
            let next : ((v : V) × In (k, v) l) ⊎ (store.get m' k ≡ found w) = elim (eq-cases j k) [
              | inl p ↦ inr (here p)
              | inr (_, ne) ↦ elim at [
                | inl (v, inl p) ↦ absurd (ne (sym (ap (λ (q : K × V). q.0) p)))
                | inl (v, inr i) ↦ inl (v, i)
                | inr there ↦
                    inr (store.get-put_ne m j' (change u) k fit (λ p. ne (sym o ∙ p)) ∙ there)
              ]
            ] in
            rw fit (met l m' k w own (rw fit at fine) (λ v i. one v (inr i)) next)
      ]

  -- And it left the keys alone that it did not meet.
  unmet :
      (l : List (K × V)) (m : store.Carrier) (k : K)
      → Own l
      → ((v : V) → ¬ (In (k, v) l))
      → store.get (walk_until rewrite (m, false) l).0.0 k ≡ store.get m k
  unmet [] m k own none_there = refl
  unmet ((j, u) ∷ l) m k (o, own) none_there =
      let j' = key j (change u) in
      elim (Bool-cases (store.encodes j' (change u))) [
        | inr bad ↦ rw bad refl
        | inl fit ↦ rw fit (
            unmet l (store.put m j' (change u)) k own (λ v i. none_there v (inr i))
            ∙ store.get-put_ne m j' (change u) k fit
                (λ p. none_there u (inl (ap (λ x. (x, u)) (sym p ∙ o)))))
      ]

  succeeded :
      {E : Type 0} (iteration write : E) (m : store.Carrier)
      → (reset_entries iteration write m).0 ≡ ok tt
      → let r = walk_until rewrite (m, false) (store.walk m) in
        (r.0.1 ≡ false)
        × ((reset_entries iteration write m).1 ≡ r.0.0)
        × ((store.walk_fails m && not r.1) ≡ false)
  unfolding reset_entries
  succeeded iteration write m done =
      let r = walk_until rewrite (m, false) (store.walk m) in
      elim (Bool-cases (store.walk_fails m && not r.1)) [
        | inl bad ↦ absurd (cc (rw bad at done))
        | inr good ↦ elim (Bool-cases r.0.1) [
          | inl bad ↦ absurd (cc (rw (good, bad) at done))
          | inr fine ↦ (fine, rw (good, fine) refl, good)
        ]
      ]

  not_stopped :
      (l : List (K × V)) (m : store.Carrier)
      → (walk_until rewrite (m, false) l).0.1 ≡ false
      → (walk_until rewrite (m, false) l).1 ≡ false
  not_stopped [] m fine = refl
  not_stopped ((j, u) ∷ l) m fine =
      elim (Bool-cases (store.encodes (key j (change u)) (change u))) [
        | inr bad ↦ absurd (cc (rw bad at fine))
        | inl fit ↦
            rw fit (not_stopped l (store.put m (key j (change u)) (change u)) (rw fit at fine))
      ]

  -- After a loop that succeeds, exactly the values that were there are there, changed.
  pub reset_entries-maps :
      {E : Type 0} (iteration write : E) (m : store.Carrier)
      → IsKeyed m
      → (reset_entries iteration write m).0 ≡ ok tt
      → (k : K)
      → store.get (reset_entries iteration write m).1 k ≡ map_lookup change (store.get m k)
  reset_entries-maps iteration write m keyed done k =
      let l = store.walk m in
      let (fine, same, no_error) = succeeded iteration write m done in
      let ends : store.walk_fails m ≡ false = ground (arith, not_stopped l m fine) in
      let own : Own l =
        All-intro (λ p. key p.0 (change p.1) ≡ p.0) l
          (λ p i. keyed p.0 p.1 (store.walk_sound m p.0 p.1 i)) in
      rw same (elim (Lookup-cases (store.get m k)) [
        | inl (v, p) ↦ rw p (
            met l m k (change v) own fine (λ u i. ap change (cc (store.walk_sound m k u i, p)))
              (inl (v, store.walk_complete m k v ends p)))
        | inr (inl p) ↦ rw p (unmet l m k own (λ v i. cc (store.walk_sound m k v i, p)) ∙ p)
        | inr (inr p) ↦ rw p (unmet l m k own (λ v i. cc (store.walk_sound m k v i, p)) ∙ p)
      ])
