-- ===== src/Sdk/Store.antt =====
-- The key-value collections that back a keeper. `Store K V` is a `collections.Map[K, V]`, with
-- `Unit` for K a `collections.Item[V]` and with `Unit` for V a `collections.KeySet[K]`.
use energychain_node.Prelude.{
  ℕ, ◌+◌, ◌%◌, ◌^◌, ◌≡◌, ◌≢◌, Bool, true, false, Option, none, some, List, [], ◌∷◌, Bytes, In,
  if◌then◌else◌,
}

-- `Get`: the value, `ErrNotFound`, or another error (the key or the stored value is malformed).
pub data Lookup (V : Type 0) : Type 0 where
  found : V → Lookup V
  not_found : Lookup V
  failed : Lookup V

pub record Store (K V : Type 0) : Type 1 where
  pub Carrier : Type 0
  pub empty : Carrier
  pub get : Carrier → K → Lookup V
  -- `Has`, and `none` on an error
  pub has : Carrier → K → Option Bool
  -- whether `Set` can encode the key and the value; if not it returns an error and writes nothing
  pub encodes : K → V → Bool
  pub put : Carrier → K → V → Carrier
  -- whether `Remove` can encode the key
  pub encodes_key : K → Bool
  pub delete : Carrier → K → Carrier
  -- what `Walk` hands to its callback, in order, and whether it then ends with an error
  pub walk : Carrier → List (K × V)
  pub walk_fails : Carrier → Bool
  pub get-empty : (k : K) → get empty k ≡ not_found
  pub get-put_self :
      (m : Carrier) (k : K) (v : V) → encodes k v ≡ true → get (put m k v) k ≡ found v
  pub get-put_ne :
      (m : Carrier) (k : K) (v : V) (j : K)
      → encodes k v ≡ true
      → k ≢ j
      → get (put m k v) j ≡ get m j
  pub get-delete_self :
      (m : Carrier) (k : K) → encodes_key k ≡ true → get (delete m k) k ≡ not_found
  pub get-delete_ne :
      (m : Carrier) (k j : K) → encodes_key k ≡ true → k ≢ j → get (delete m k) j ≡ get m j
  pub has_found : (m : Carrier) (k : K) (v : V) → get m k ≡ found v → has m k ≡ some true
  pub has_not_found : (m : Carrier) (k : K) → get m k ≡ not_found → has m k ≡ some false
  pub walk_sound : (m : Carrier) (k : K) (v : V) → In (k, v) (walk m) → get m k ≡ found v
  pub walk_complete :
      (m : Carrier) (k : K) (v : V) → walk_fails m ≡ false → get m k ≡ found v → In (k, v) (walk m)

-- `collections.Sequence`: a uint64 that starts at 0. `none` stands for an error of the store.
pub record Sequence : Type 1 where
  pub Carrier : Type 0
  pub start : Carrier
  pub peek : Carrier → Option ℕ
  pub next : Carrier → Option (ℕ × Carrier)
  pub set : Carrier → ℕ → Option Carrier
  pub peek-start : peek start ≡ some 0
  pub peek-next :
      (q : Carrier) (n : ℕ) (q' : Carrier)
      → next q ≡ some (n, q')
      → (peek q ≡ some n) × (peek q' ≡ some ((n + 1) % 2 ^ 64))
  pub peek-set : (q : Carrier) (n : ℕ) (q' : Carrier) → set q n ≡ some q' → peek q' ≡ some n

-- A raw `KVStore`, here the transient store that is wiped at the start of every block.
pub record RawStore : Type 1 where
  pub Carrier : Type 0
  pub wiped : Carrier
  pub get : Carrier → Bytes → Option Bytes
  pub set : Carrier → Bytes → Bytes → Carrier
  pub get-wiped : (k : Bytes) → get wiped k ≡ none
  pub get-set_self : (m : Carrier) (k v : Bytes) → get (set m k v) k ≡ some v
  pub get-set_ne : (m : Carrier) (k v j : Bytes) → k ≢ j → get (set m k v) j ≡ get m j

-- The loop of `Walk` over what it visits: the callback returns its new variables and whether to
-- stop; the result says whether it stopped.
abbrev pub walk_until {ℓ} :
    {S : Type ℓ} {K V : Type 0} → (S → K → V → S × Bool) → S → List (K × V) → S × Bool
walk_until step s [] = (s, false)
walk_until step s ((k, v) ∷ rest) =
    let next = step s k v in
    let later = walk_until step next.0 rest in if next.1 then (next.0, true) else later
