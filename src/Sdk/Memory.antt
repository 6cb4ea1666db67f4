-- ===== src/Sdk/Memory.antt =====
-- The interfaces of `Sdk.Store` met by lists in memory: every key and value can be encoded and no
-- read fails. The witnesses of the theorems run on these.
use energychain_node.Prelude.{
  ℕ, ◌+◌, ◌%◌, ◌^◌, ◌≡◌, refl, ◌≢◌, sym, ap, inl, inr, Bool, true, false, Option, none, some, List,
  [], ◌∷◌, arith, Bytes, In, Eq, ◌==◌, eq_iff, list_eq, ℕ_eq, if◌then◌else◌,
}
use energychain_node.Sdk.Store.{Lookup, found, not_found, Store, Sequence, RawStore}

module _ {K V : Type 0} ⦃e : Eq K⦄ where
  abbrev pub lookup : List (K × V) → K → Lookup V
  lookup [] k = not_found
  lookup ((j, v) ∷ m) k = if j == k then found v else lookup m k

  abbrev pub without : List (K × V) → K → List (K × V)
  without [] k = []
  without ((j, v) ∷ m) k = let rest = without m k in if j == k then rest else (j, v) ∷ rest

  -- No key is listed twice.
  abbrev pub Unique : List (K × V) → Type 0
  Unique [] = Unit
  Unique ((j, v) ∷ m) = (lookup m j ≡ not_found) × Unique m

  pub lookup-without_self : (m : List (K × V)) (k : K) → lookup (without m k) k ≡ not_found
  lookup-without_self [] k = refl
  lookup-without_self ((j, v) ∷ m) k = ground (arith, lookup-without_self m k)

  pub lookup-without_ne : (m : List (K × V)) (k j : K) → k ≢ j → lookup (without m k) j ≡ lookup m j
  lookup-without_ne [] k j h = refl
  lookup-without_ne ((i, v) ∷ m) k j h =
      ground (arith, lookup-without_ne m k j h, e.same_iff i k, e.same_iff i j)

  lookup-without_none :
      (m : List (K × V)) (k j : K) → lookup m j ≡ not_found → lookup (without m k) j ≡ not_found
  lookup-without_none [] k j h = refl
  lookup-without_none ((i, v) ∷ m) k j h = ground (arith, lookup-without_none m k j)

  pub without-Unique : (m : List (K × V)) (k : K) → Unique m → Unique (without m k)
  without-Unique [] k h = tt
  without-Unique ((i, v) ∷ m) k h =
      ground (arith, without-Unique m k h.1, lookup-without_none m k i h.0)

  pub lookup_sound :
      (m : List (K × V)) (k : K) (v : V) → Unique m → In (k, v) m → lookup m k ≡ found v
  lookup_sound [] k v u h = elim h [ ]
  lookup_sound ((i, w) ∷ m) k v u (inl p) = ground (arith, e.same_iff i k)
  lookup_sound ((i, w) ∷ m) k v u (inr h) =
      ground (arith, e.same_iff i k, lookup_sound m k v u.1 h, ap (lookup m) {x = i} {y = k})

  pub lookup_complete : (m : List (K × V)) (k : K) (v : V) → lookup m k ≡ found v → In (k, v) m
  lookup_complete [] k v h = cc
  lookup_complete ((i, w) ∷ m) k v h = ground (arith, e.same_iff i k, lookup_complete m k v)

module _ (K V : Type 0) ⦃e : Eq K⦄ where
  pub record Table : Type 0 where
    pub entries : List (K × V)
    pub unique : Unique entries

  abbrev pub put : Table → K → V → Table
  put t k v = record {
    entries = (k, v) ∷ without t.entries k;
    unique = (lookup-without_self t.entries k, without-Unique t.entries k t.unique);
  }

  abbrev pub delete : Table → K → Table
  delete t k = record {
    entries = without t.entries k;
    unique = without-Unique t.entries k t.unique;
  }

  abbrev pub has : Table → K → Option Bool
  has t k = elim (lookup t.entries k) [ found _ ↦ some true | _ ↦ some false ]

  pub put_self : (t : Table) (k : K) (v : V) → lookup (put t k v).entries k ≡ found v
  put_self t k v = ground (arith, e.same_iff k k)

  pub put_ne :
      (t : Table) (k : K) (v : V) (j : K)
      → k ≢ j
      → lookup (put t k v).entries j ≡ lookup t.entries j
  put_ne t k v j h = ground (arith, e.same_iff k j, lookup-without_ne t.entries k j h)

  pub has_found : (t : Table) (k : K) (v : V) → lookup t.entries k ≡ found v → has t k ≡ some true
  has_found t k v h = ground arith

  pub has_not_found : (t : Table) (k : K) → lookup t.entries k ≡ not_found → has t k ≡ some false
  has_not_found t k h = ground arith

  abbrev pub store : Store K V
  store = record {
    Carrier = Table;
    empty = record { entries = []; unique = tt };
    get = λ t k. lookup t.entries k;
    has = has;
    encodes = λ _ _. true;
    put = put;
    encodes_key = λ _. true;
    delete = delete;
    walk = λ t. t.entries;
    walk_fails = λ _. false;
    get-empty = λ k. refl;
    get-put_self = λ t k v _. put_self t k v;
    get-put_ne = λ t k v j _ h. put_ne t k v j h;
    get-delete_self = λ t k _. lookup-without_self t.entries k;
    get-delete_ne = λ t k j _ h. lookup-without_ne t.entries k j h;
    has_found = has_found;
    has_not_found = has_not_found;
    walk_sound = λ t k v h. lookup_sound t.entries k v t.unique h;
    walk_complete = λ t k v _ h. lookup_complete t.entries k v h;
  }

abbrev pub next : ℕ → Option (ℕ × ℕ)
next q = some (q, (q + 1) % 2 ^ 64)

pub peek-next :
    (q n q' : ℕ) → next q ≡ some (n, q') → (some q ≡ some n) × (some q' ≡ some ((n + 1) % 2 ^ 64))
peek-next q n q' h = ground arith

abbrev pub sequence : Sequence
sequence = record {
  Carrier = ℕ;
  start = 0;
  peek = λ q. some q;
  next = next;
  set = λ _ n. some n;
  peek-start = refl;
  peek-next = peek-next;
  peek-set = λ q n q' h. sym h;
}

abbrev pub raw_get : List (Bytes × Bytes) → Bytes → Option Bytes
raw_get m k = elim (lookup m k) [ found v ↦ some v | _ ↦ none ]

pub raw_set_ne :
    (m : List (Bytes × Bytes)) (k v j : Bytes) → k ≢ j → raw_get ((k, v) ∷ m) j ≡ raw_get m j
raw_set_ne m k v j h = ground (arith, eq_iff k j)

pub raw_set_self : (m : List (Bytes × Bytes)) (k v : Bytes) → raw_get ((k, v) ∷ m) k ≡ some v
raw_set_self m k v = ground (arith, eq_iff k k)

abbrev pub raw_store : RawStore
raw_store = record {
  Carrier = List (Bytes × Bytes);
  wiped = [];
  get = raw_get;
  set = λ m k v. (k, v) ∷ m;
  get-wiped = λ k. refl;
  get-set_self = raw_set_self;
  get-set_ne = raw_set_ne;
}
