-- ===== src/Sdk/OnePage.antt =====
-- The interface of `Sdk.Paging` met by one page of everything that a walk visits. The witnesses of
-- the theorems on queries run on it.
use energychain_node.Prelude.{
  ◌≡◌, refl, sym, ap, ◌∙◌, subst, Bool, true, false, ◌&&◌, Option, none, some, List, [], ◌∷◌, In,
  inl, inr, Eq, ◌==◌, eq_iff, if◌then◌else◌, Bool-cases,
}
use energychain_node.Sdk.Store.{Store, found}
use energychain_node.Sdk.Paging.{Paging}

module _ {A : Type 0} where
  abbrev pub select : (A → Bool) → List A → List A
  select f [] = []
  select f (x ∷ xs) = let rest = select f xs in if f x then x ∷ rest else rest

  In-select : (f : A → Bool) (xs : List A) (a : A) → In a (select f xs) → In a xs × (f a ≡ true)
  In-select f [] a m = elim m [ ]
  In-select f (x ∷ xs) a m = elim (Bool-cases (f x)) [
    | inl yes_x ↦ elim (rw yes_x at m) [
      | inl e ↦ (inl e, ap f e ∙ yes_x)
      | inr n ↦ let (i, t) = In-select f xs a n in (inr i, t)
    ]
    | inr no_x ↦ let (i, t) = In-select f xs a (rw no_x at m) in (inr i, t)
  ]

module _ {K V P : Type 0} ⦃e : Eq P⦄ (store : Store K V) (prefix_of : K → P) where
  abbrev pub has_prefix : Option P → K → Bool
  has_prefix none k = true
  has_prefix (some q) k = prefix_of k == q

  has_prefix-prefix_of :
      (p : Option P) (k : K) (q : P) → has_prefix p k ≡ true → p ≡ some q → prefix_of k ≡ q
  has_prefix-prefix_of none k q h s = cc
  has_prefix-prefix_of (some r) k q h s = cc ((eq_iff (prefix_of k) r).0 h)

  abbrev pub kept : Option P → (K → V → Bool) → K × V → Bool
  kept p keep (k, v) = has_prefix p k && keep k v

  and_parts : {a b : Bool} → a && b ≡ true → (a ≡ true) × (b ≡ true)
  and_parts {a = true} {b = true} h = (refl, refl)
  and_parts {a = true} {b = false} h = cc
  and_parts {a = false} h = cc

  some_pair :
      {A : Type 0} {a b : A} → ◌≡◌ {A = Option (A × Unit {0})} (some (a, tt)) (some (b, tt)) → a ≡ b
  some_pair h = cc

  pub page_sound :
      (m : store.Carrier) (p : Option P) (keep : K → V → Bool) (items : List (K × V)) (k : K)
      (v : V)
      → ◌≡◌ {A = Option (List (K × V) × Unit {0})}
          (some (select (kept p keep) (store.walk m), tt))
          (some (items, tt))
      → In (k, v) items
      → (store.get m k ≡ found v) × (keep k v ≡ true) × ((q : P) → p ≡ some q → prefix_of k ≡ q)
  page_sound m p keep items k v same i =
      let (there, t) =
        In-select (kept p keep) (store.walk m) (k, v)
          (subst (In (k, v)) (sym (some_pair same)) i) in
      let (pre, yes_v) = and_parts t in
      (store.walk_sound m k v there, yes_v, λ q. has_prefix-prefix_of p k q pre)

  abbrev pub one_page : Paging store P
  one_page = record {
    Request = Unit {0};
    Response = Unit {0};
    prefix_of = prefix_of;
    visit = λ m p _ keep. some (select (kept p keep) (store.walk m), tt);
    visit_sound = λ m p _ keep items _ k v same i. page_sound m p keep items k v same i;
  }
