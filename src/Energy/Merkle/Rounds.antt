-- ===== src/Energy/Merkle/Rounds.antt =====
-- The rounds of `computeMerkleRoot` of chain/x/energy/keeper/msg_server.go on two lists of digests
-- with one root.
use energychain_node.Prelude.{
  ◌≡◌, ◌⊎◌, ◌+◌, sym, ℕ, zero, suc, some, inl, inr, List, [], ◌∷◌, ◌++◌, Bytes, length, In, All,
  All-In, arith, list_eq, ℕ_eq, subst,
}
use energychain_node.Binary.{put_uint64}
use energychain_node.Crypto.{Crypto}
use energychain_node.Energy.Types.{BatchItem}
use energychain_node.Energy.Merkle.{hash_pair, next_level, compute_merkle_root, leaf, leaves_from}
use energychain_node.Energy.Merkle.Depth.{double-add}
use energychain_node.Energy.Merkle.Tree.{length-next_level}
use energychain_node.Energy.Merkle.Collision.{
  Collision, IsDigest, All-or, hash_pair-OneOf, hash_pair-cases, next_level-In, In-next_level,
  In-OneOf,
}

module _ ⦃c : Crypto⦄ (digest : (x : Bytes) → length (c.keccak256 x) ≡ 32) where
  hash_pair-IsDigest : (a b : Bytes) → IsDigest (hash_pair a b)
  hash_pair-IsDigest a b = elim (hash_pair-cases a b) [
    | inl e ↦ subst IsDigest (sym e) (digest (a ++ b))
    | inr e ↦ subst IsDigest (sym e) (digest (b ++ a))
  ]

  next_level-IsDigest : (xs : List Bytes) → All IsDigest (next_level xs)
  unfolding next_level
  next_level-IsDigest [] = tt
  next_level-IsDigest (a ∷ []) = (hash_pair-IsDigest a a, tt)
  next_level-IsDigest (a ∷ b ∷ xs) = (hash_pair-IsDigest a b, next_level-IsDigest xs)

  -- What is in both rounds was in both before it.
  included_before :
      (xs ys : List Bytes)
      → All IsDigest xs
      → All IsDigest ys
      → ((h : Bytes) → In h (next_level xs) → In h (next_level ys))
      → Collision ⊎ All (λ a. In a ys) xs
  included_before xs ys dx dy inc = All-or (λ a. In a ys) xs one
    where
      one : (a : Bytes) → In a xs → Collision ⊎ In a ys
      one a m =
          let (x, y, p, i, j, o) = In-next_level xs a m in
          let (u, v, e, k, l) = next_level-In ys (hash_pair x y) (inc (hash_pair x y) p) in
          let d = All-In IsDigest xs dx in
          let d' = All-In IsDigest ys dy in
          elim (hash_pair-OneOf x y u v (d x i) (d y j) (d' u k) (d' v l) e) [
            | inl col ↦ inl col
            | inr (ox, oy) ↦ elim o [
              | inl ax ↦ inr (subst (λ z. In z ys) (sym ax) (In-OneOf ys x u v k l ox))
              | inr ay ↦ inr (subst (λ z. In z ys) (sym ay) (In-OneOf ys y u v k l oy))
            ]
          ]

  -- Lists of digests of one length with one root have the same digests, up to a collision.
  pub compute_merkle_root-included :
      (f : ℕ) (xs ys : List Bytes) (r : Bytes)
      → length xs ≡ length ys
      → All IsDigest xs
      → All IsDigest ys
      → compute_merkle_root f xs ≡ some r
      → compute_merkle_root f ys ≡ some r
      → Collision ⊎ All (λ a. In a ys) xs
  unfolding compute_merkle_root
  compute_merkle_root-included zero xs ys r l dx dy p q = cc
  compute_merkle_root-included (suc f) [] ys r l dx dy p q = inr tt
  compute_merkle_root-included (suc f) (x ∷ []) [] r l dx dy p q = absurd (omega arith)
  compute_merkle_root-included (suc f) (x ∷ []) (y ∷ []) r l dx dy p q =
      let same : x ≡ y = cc (p, q) in inr (inl same, tt)
  compute_merkle_root-included (suc f) (x ∷ []) (y ∷ z ∷ ys) r l dx dy p q = absurd (omega arith)
  compute_merkle_root-included (suc f) (x ∷ w ∷ xs) [] r l dx dy p q = absurd (omega arith)
  compute_merkle_root-included (suc f) (x ∷ w ∷ xs) (y ∷ []) r l dx dy p q = absurd (omega arith)
  compute_merkle_root-included (suc f) (x ∷ w ∷ xs) (y ∷ z ∷ ys) r l dx dy p q =
      let a = x ∷ w ∷ xs in
      let b = y ∷ z ∷ ys in
      let even : length (next_level a) ≡ length (next_level b) = omega (
        arith,
        length-next_level a,
        length-next_level b,
        double-add (length (next_level a)),
        double-add (length (next_level b)),
      ) in
      elim (compute_merkle_root-included f (next_level a) (next_level b) r even
        (next_level-IsDigest a) (next_level-IsDigest b) p q) [
          | inl col ↦ inl col
          | inr inc ↦
              included_before a b dx dy (All-In (λ h. In h (next_level b)) (next_level a) inc)
        ]

  pub leaves_from-IsDigest : (i : ℕ) (items : List BatchItem) → All IsDigest (leaves_from i items)
  unfolding leaves_from leaf
  leaves_from-IsDigest i [] = tt
  leaves_from-IsDigest i (item ∷ items) =
      (digest (put_uint64 i ++ item.data_hash), leaves_from-IsDigest (i + 1) items)
