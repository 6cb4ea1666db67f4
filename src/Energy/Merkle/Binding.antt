-- ===== src/Energy/Merkle/Binding.antt =====
-- The Merkle root of chain/x/energy/keeper/msg_server.go binds the items of a batch.
use energychain_node.Prelude.{
  ◌≡◌, ◌⊎◌, ◌+◌, ◌≤◌, ◌<◌, ◌^◌, refl, sym, ap, ◌∙◌, ℕ, zero, suc, Option, some, none, inl, inr,
  List, [], ◌∷◌, ◌++◌, map, Bytes, length, In, All-In, arith, Bool-cases, eq_iff, ◌==◌, list_eq,
  ℕ_eq, subst, Option-cases,
}
use energychain_node.Outcome.{ok}
use energychain_node.Binary.{put_uint64, length-put_uint64, put_uint64-injective}
use energychain_node.Hex.{hex_encode, hex_encode-injective}
use energychain_node.Crypto.{Crypto}
use energychain_node.Energy.Types.{BatchItem}
use energychain_node.Energy.Merkle.{
  compute_merkle_root, leaf, leaves_from, normalized, verify_merkle_root,
}
use energychain_node.Energy.Merkle.Tree.{length-leaves_from}
use energychain_node.Energy.Merkle.Collision.{Collision, same_or_Collision, append-injective}
use energychain_node.Energy.Merkle.Rounds.{compute_merkle_root-included, leaves_from-IsDigest}

-- The element at a position.
abbrev pub nth : {A : Type 0} → List A → ℕ → Option A
nth [] n = none
nth (x ∷ xs) zero = some x
nth (x ∷ xs) (suc n) = nth xs n

nth-ext :
    {A : Type 0} (xs ys : List A)
    → length xs ≡ length ys
    → ((n : ℕ) (x : A) → nth xs n ≡ some x → nth ys n ≡ some x)
    → xs ≡ ys
nth-ext [] [] l h = refl
nth-ext [] (y ∷ ys) l h = absurd (omega arith)
nth-ext (x ∷ xs) [] l h = absurd (omega arith)
nth-ext (x ∷ xs) (y ∷ ys) l h =
    let first : x ≡ y = cc (h 0 x refl) in
    rw first (ap (λ t. y ∷ t) (nth-ext xs ys (omega arith) (λ n. h (suc n))))

nth-each :
    {A : Type 0} (P : ℕ → A → Type 0) (y : A) (ys : List A)
    → P 0 y
    → ((n : ℕ) (x : A) → nth ys n ≡ some x → P (suc n) x)
    → (n : ℕ) (x : A) → nth (y ∷ ys) n ≡ some x
    → P n x
nth-each P y ys p ps zero x e = let same : y ≡ x = cc e in subst (P 0) same p
nth-each P y ys p ps (suc n) x e = ps n x e

-- An alternative that does not depend on the position is one for the list.
nth-or :
    {A C : Type 0} (xs : List A) (P : ℕ → A → Type 0)
    → ((n : ℕ) (x : A) → nth xs n ≡ some x → C ⊎ P n x)
    → C ⊎ ((n : ℕ) (x : A) → nth xs n ≡ some x → P n x)
nth-or [] P h = inr (λ n x e. cc)
nth-or (y ∷ ys) P h = elim (h 0 y refl) [
  | inl c ↦ inl c
  | inr p ↦ elim (nth-or ys (λ n. P (suc n)) (λ n. h (suc n))) [
    | inl c ↦ inl c
    | inr ps ↦ inr (nth-each P y ys p ps)
  ]
]

abbrev pub hashes : List BatchItem → List Bytes
hashes = map (λ item. item.data_hash)

module _ ⦃c : Crypto⦄ where
  length-hashes : (items : List BatchItem) → length (hashes items) ≡ length items
  length-hashes [] = refl
  length-hashes (item ∷ items) = ap suc (length-hashes items)

  -- The leaf of a position is the digest of the position and the hash there.
  leaves_from-nth :
      (i n : ℕ) (items : List BatchItem) (h : Bytes)
      → nth (hashes items) n ≡ some h
      → (n < length items) × In (c.keccak256 (put_uint64 (i + n) ++ h)) (leaves_from i items)
  unfolding leaves_from leaf
  leaves_from-nth i n [] h e = cc
  leaves_from-nth i zero (item ∷ items) h e =
      let same : item.data_hash ≡ h = cc e in
      let at : i + 0 ≡ i = omega arith in rw (at, sym same) (omega arith, inl refl)
  leaves_from-nth i (suc n) (item ∷ items) h e =
      let (l, m) = leaves_from-nth (i + 1) n items h e in
      let at : i + suc n ≡ i + 1 + n = omega arith in
      (
        omega arith,
        inr (
            subst (λ j. In (c.keccak256 (put_uint64 j ++ h)) (leaves_from (i + 1) items)) (sym at)
              m),
      )

  In-leaves_from :
      (i : ℕ) (items : List BatchItem) (x : Bytes)
      → In x (leaves_from i items)
      → (n : ℕ) × (h : Bytes) × (n < length items)
        × (nth (hashes items) n ≡ some h)
        × (x ≡ c.keccak256 (put_uint64 (i + n) ++ h))
  unfolding leaves_from leaf
  In-leaves_from i [] x m = elim m [ ]
  In-leaves_from i (item ∷ items) x (inl e) =
      let at : i + 0 ≡ i = omega arith in (0, item.data_hash, omega arith, refl, rw at e)
  In-leaves_from i (item ∷ items) x (inr m) =
      let (n, h, l, e, p) = In-leaves_from (i + 1) items x m in
      let at : i + suc n ≡ i + 1 + n = omega arith in (suc n, h, omega arith, e, rw at p)

  -- The root that an accepted batch declares.
  verify_merkle_root-root :
      (items : List BatchItem) (declared : Bytes)
      → verify_merkle_root items declared ≡ ok tt
      → (r : Bytes) × (compute_merkle_root (length items) (leaves_from 0 items) ≡ some r)
        × (hex_encode r ≡ normalized declared)
  unfolding verify_merkle_root
  verify_merkle_root-root [] declared done = cc
  verify_merkle_root-root (item ∷ items) declared done =
      let leaves = leaves_from 0 (item ∷ items) in
      let same = length-leaves_from 0 (item ∷ items) in
      elim (Option-cases (compute_merkle_root (length leaves) leaves)) [
        | inl stuck ↦ absurd (cc (rw (verify_merkle_root, stuck) at done))
        | inr (r, root) ↦ elim (Bool-cases (hex_encode r == normalized declared)) [
          | inr other ↦ absurd (cc (rw (verify_merkle_root, root, other) at done))
          | inl e ↦ (
            r,
            subst (λ n. compute_merkle_root n leaves ≡ some r) same root,
            (eq_iff (hex_encode r) (normalized declared)).0 e,
          )
        ]
      ]

  module _ (digest : (x : Bytes) → length (c.keccak256 x) ≡ 32) (xs ys : List BatchItem)
      (same_length : length xs ≡ length ys) (indices : length xs ≤ 2 ^ 64) where
    -- An item has its hash at its position in the other batch.
    same_place :
        ((x : Bytes) → In x (leaves_from 0 xs) → In x (leaves_from 0 ys))
        → (n : ℕ) (h : Bytes) → nth (hashes xs) n ≡ some h
        → Collision ⊎ (nth (hashes ys) n ≡ some h)
    same_place inc n h e =
        let (l, m) = leaves_from-nth 0 n xs h e in
        let (n', h', l', e', p) =
          In-leaves_from 0 ys (c.keccak256 (put_uint64 (0 + n) ++ h))
            (inc (c.keccak256 (put_uint64 (0 + n) ++ h)) m) in
        elim (same_or_Collision (put_uint64 (0 + n) ++ h) (put_uint64 (0 + n') ++ h') p) [
          | inl col ↦ inl col
          | inr texts ↦
              let (index, hash) =
                append-injective (put_uint64 (0 + n)) h (put_uint64 (0 + n')) h'
                  (length-put_uint64 (0 + n) ∙ sym (length-put_uint64 (0 + n'))) texts in
              let at = put_uint64-injective (0 + n) (0 + n') (omega arith) (omega arith) index in
              let place : n ≡ n' = omega arith in inr (rw (place, hash) e')
        ]

    map_lengths : length (hashes xs) ≡ length (hashes ys)
    map_lengths = length-hashes xs ∙ same_length ∙ sym (length-hashes ys)

    -- Under a digest of 32 bytes, two batches of xs many items, whose indices fit in 64 bits, that are
    -- both accepted with one declared root have the same data hashes in the same order, or else there
    -- are two texts with one digest.
    pub verify_merkle_root-binds :
        (declared : Bytes)
        → verify_merkle_root xs declared ≡ ok tt
        → verify_merkle_root ys declared ≡ ok tt
        → Collision ⊎ (hashes xs ≡ hashes ys)
    verify_merkle_root-binds declared done_x done_y =
        let (r, root_x, hex_x) = verify_merkle_root-root xs declared done_x in
        let (r', root_y, hex_y) = verify_merkle_root-root ys declared done_y in
        let one_root : r' ≡ r = hex_encode-injective r' r (hex_y ∙ sym hex_x) in
        let root : compute_merkle_root (length xs) (leaves_from 0 ys) ≡ some r =
          rw (same_length, sym one_root) root_y in
        let lengths : length (leaves_from 0 xs) ≡ length (leaves_from 0 ys) =
          length-leaves_from 0 xs ∙ same_length ∙ sym (length-leaves_from 0 ys) in
        elim (compute_merkle_root-included digest (length xs) (leaves_from 0 xs) (leaves_from 0 ys)
          r lengths (leaves_from-IsDigest digest 0 xs) (leaves_from-IsDigest digest 0 ys) root_x
          root) [
            | inl col ↦ inl col
            | inr inc ↦
                let places =
                  same_place (All-In (λ x. In x (leaves_from 0 ys)) (leaves_from 0 xs) inc) in
                elim (nth-or (hashes xs) (λ n h. nth (hashes ys) n ≡ some h) places) [
                  | inl col ↦ inl col
                  | inr all ↦ inr (nth-ext (hashes xs) (hashes ys) map_lengths all)
                ]
          ]
