-- ===== src/Sdk/Paging.antt =====
-- `query.CollectionFilteredPaginate` of the SDK, on a collection, a prefix and a predicate: a page of
-- what the collection holds under the prefix and the predicate keeps.
use energychain_node.Prelude.{
  ◌≡◌, refl, sym, ap, subst, Bool, true, Option, none, some, List, In, In-map, map,
}
use energychain_node.Outcome.{Outcome, ok, err, ok-injective}
use energychain_node.Sdk.Store.{Store, found}

module _ {K V : Type 0} (store : Store K V) (P : Type 0) where
  pub record Paging : Type 1 where
    pub Request : Type 0
    pub Response : Type 0
    pub prefix_of : K → P
    -- `none` is an error, as on a malformed request
    pub visit :
        store.Carrier → Option P → Request → (K → V → Bool) → Option (List (K × V) × Response)
    pub visit_sound :
        (m : store.Carrier) (p : Option P) (req : Request) (keep : K → V → Bool)
        (items : List (K × V)) (res : Response) (k : K) (v : V)
        → visit m p req keep ≡ some (items, res)
        → In (k, v) items
        → (store.get m k ≡ found v) × (keep k v ≡ true) × ((q : P) → p ≡ some q → prefix_of k ≡ q)

-- The answer of a query that transforms a page, and what is behind each of its values.
module _ {K V E A : Type 0} {P : Type 0} (store : Store K V) (paging : Paging store P) where
  abbrev pub answer :
      E
      → (K × V → A)
      → Option (List (K × V) × paging.Response)
      → Outcome E (List A × paging.Response)
  answer e f none = err e
  answer e f (some (entries, page)) = ok (map f entries, page)

  pub answer-In :
      (m : store.Carrier) (p : Option P) (req : paging.Request) (keep : K → V → Bool) (e : E)
      (f : K × V → A) (values : List A) (page : paging.Response) (a : A)
      → answer e f (paging.visit m p req keep) ≡ ok (values, page)
      → In a values
      → (k : K) × (v : V) × (a ≡ f (k, v))
        × (store.get m k ≡ found v)
        × (keep k v ≡ true)
        × ((q : P) → p ≡ some q → paging.prefix_of k ≡ q)
  answer-In m p req keep e f values page a h i = go (paging.visit m p req keep) refl h
    where
      go :
          (r : Option (List (K × V) × paging.Response))
          → paging.visit m p req keep ≡ r
          → answer e f r ≡ ok (values, page)
          → (k : K) × (v : V) × (a ≡ f (k, v))
            × (store.get m k ≡ found v)
            × (keep k v ≡ true)
            × ((q : P) → p ≡ some q → paging.prefix_of k ≡ q)
      go none visited h = cc
      go (some (entries, next)) visited h =
          let same : map f entries ≡ values = ap (λ r. r.0) (ok-injective h) in
          let ((k, v), j, b) = In-map f entries a (subst (In a) (sym same) i) in
          let (there, kept, pre) = paging.visit_sound m p req keep entries next k v visited j in
          (k, v, b, there, kept, pre)

-- `query.CollectionPaginate` keeps everything.
abbrev pub keep_all : {K V : Type 0} → K → V → Bool
keep_all k v = true
