-- ===== src/Energy/Merkle/Tree.antt =====
-- The rounds of `computeMerkleRoot`, from the leaves up, against the tree from the root down: the
-- root over 2 ^ (d + 1) places is the pair of the roots over its halves, an empty right half being
-- a copy of the left one.
use energychain_node.Prelude.{
  subst, ℕ, zero, suc, ◌+◌, ◌≤◌, ◌<◌, ◌≡◌, refl, sym, ap, ◌∙◌, some, inl, inr, List, [], ◌∷◌, arith,
  Bytes, length, take, drop, take-nil, drop-nil, length-take, length-drop, leb, Bool-cases, ◌==◌,
  list_eq, ℕ_eq, if◌then◌else◌,
}
use energychain_node.Outcome.{ok, err}
use energychain_node.Hex.{hex_encode}
use energychain_node.Crypto.{Crypto}
use energychain_node.Energy.Types.{BatchItem}
use energychain_node.Energy.State.{merkle_root_mismatch}
use energychain_node.Energy.Merkle.Depth.{
  double, width, double-add, width-pos, IsDepth, IsDepth-exists, IsDepth-lt,
}
use energychain_node.Energy.Merkle.{
  hash_pair, next_level, compute_merkle_root, leaves_from, normalized, verify_merkle_root,
}

module _ ⦃c : Crypto⦄ where
  -- A round halves the number of hashes, rounding up.
  pub length-next_level :
      (xs : List Bytes)
      → (length xs ≤ double (length (next_level xs)))
        × (double (length (next_level xs)) ≤ length xs + 1)
  unfolding next_level
  length-next_level [] = omega arith
  length-next_level (a ∷ []) = omega arith
  length-next_level (a ∷ b ∷ xs) = omega (arith, length-next_level xs)

  IsDepth-next_level :
      (d : ℕ) (xs : List Bytes)
      → width d < length xs
      → length xs ≤ width (suc d)
      → IsDepth d (length (next_level xs))
  IsDepth-next_level zero xs lo hi =
      omega (arith, length-next_level xs, double-add (length (next_level xs)))
  IsDepth-next_level (suc d) xs lo hi =
      let l = length-next_level xs in
      let e = double-add (length (next_level xs)) in
      let w = double-add (width d) in
      let v = double-add (double (width d)) in
      (omega (arith, l, e, w, v), omega (arith, l, e, w, v))

  -- What the right half of 2 ^ (d + 1) places holds.
  unfoldable pub right_half : ℕ → List Bytes → List Bytes
  right_half d leaves =
      if leb (length leaves) (width d) then take (width d) leaves else drop (width d) leaves

  -- The root over 2 ^ d places, from the root down.
  unfoldable pub tree_root : ℕ → List Bytes → Bytes
  tree_root zero [] = []
  tree_root zero (l ∷ _) = l
  tree_root (suc d) leaves =
      hash_pair (tree_root d (take (width d) leaves)) (tree_root d (right_half d leaves))

  next_level-take :
      (m : ℕ) (xs : List Bytes) → next_level (take (double m) xs) ≡ take m (next_level xs)
  unfolding next_level
  next_level-take zero xs = refl
  next_level-take (suc m) [] = refl
  next_level-take (suc m) (a ∷ []) = ap (λ l. hash_pair a a ∷ l) (sym (take-nil m))
  next_level-take (suc m) (a ∷ b ∷ xs) = ap (λ l. hash_pair a b ∷ l) (next_level-take m xs)

  next_level-drop :
      (m : ℕ) (xs : List Bytes) → next_level (drop (double m) xs) ≡ drop m (next_level xs)
  unfolding next_level
  next_level-drop zero xs = refl
  next_level-drop (suc m) [] = refl
  next_level-drop (suc m) (a ∷ []) = sym (drop-nil m)
  next_level-drop (suc m) (a ∷ b ∷ xs) = next_level-drop m xs

  leb-next_level :
      (w : ℕ) (xs : List Bytes) → leb (length (next_level xs)) w ≡ leb (length xs) (double w)
  leb-next_level w xs = elim (Bool-cases (leb (length (next_level xs)) w)) [
    | inl fits ↦ elim (Bool-cases (leb (length xs) (double w))) [
      | inl e ↦ fits ∙ sym e
      | inr e ↦
          absurd (
            ground (arith, length-next_level xs, double-add w, double-add (length (next_level xs))))
    ]
    | inr full ↦ elim (Bool-cases (leb (length xs) (double w))) [
      | inl e ↦
          absurd (
            ground (arith, length-next_level xs, double-add w, double-add (length (next_level xs))))
      | inr e ↦ full ∙ sym e
    ]
  ]

  next_level-right_half :
      (d : ℕ) (xs : List Bytes) → next_level (right_half (suc d) xs) ≡ right_half d (next_level xs)
  unfolding right_half
  next_level-right_half d xs = elim (Bool-cases (leb (length xs) (double (width d)))) [
    | inl fits ↦ rw (leb-next_level (width d) xs, fits) (next_level-take (width d) xs)
    | inr full ↦ rw (leb-next_level (width d) xs, full) (next_level-drop (width d) xs)
  ]

  right_half-bounds :
      (d : ℕ) (xs : List Bytes)
      → 0 < length xs
      → length xs ≤ width (suc d)
      → (0 < length (right_half d xs)) × (length (right_half d xs) ≤ width d)
  unfolding right_half
  right_half-bounds d xs h l = elim (Bool-cases (leb (length xs) (width d))) [
    | inl fits ↦ rw fits (omega (arith, length-take (width d) xs, width-pos d))
    | inr full ↦ rw full (ground (arith, length-drop (width d) xs, double-add (width d)))
  ]

  step_zero :
      (xs : List Bytes)
      → 0 < length xs
      → length xs ≤ 2
      → tree_root 1 xs ≡ tree_root 0 (next_level xs)
  unfolding tree_root right_half next_level
  step_zero [] h l = absurd (omega arith)
  step_zero (a ∷ []) h l = refl
  step_zero (a ∷ b ∷ []) h l = refl
  step_zero (a ∷ b ∷ e ∷ xs) h l = absurd (omega arith)

  tree_root-suc :
      (d : ℕ) (xs : List Bytes)
      → tree_root (suc d) xs
        ≡ hash_pair (tree_root d (take (width d) xs)) (tree_root d (right_half d xs))
  unfolding tree_root
  tree_root-suc d xs = refl

  -- The two halves after a round are the halves before it, a round later.
  step :
      (d : ℕ) (xs : List Bytes)
      → 0 < length xs
      → length xs ≤ width (suc d)
      → tree_root (suc d) xs ≡ tree_root d (next_level xs)
  step zero xs h l = step_zero xs h l
  step (suc d) xs h l =
      let w = width (suc d) in
      let (right_pos, right_le) = right_half-bounds (suc d) xs h l in
      let left_pos : 0 < length (take w xs) =
        omega (arith, length-take w xs, width-pos (suc d), h) in
      let left_le : length (take w xs) ≤ w = omega (arith, length-take w xs) in
      let left =
        step d (take w xs) left_pos left_le ∙ ap (tree_root d) (next_level-take (width d) xs) in
      let right =
        step d (right_half (suc d) xs) right_pos right_le
        ∙ ap (tree_root d) (next_level-right_half d xs) in
      tree_root-suc (suc d) xs
      ∙ ap (λ v. hash_pair v (tree_root (suc d) (right_half (suc d) xs))) left
      ∙ ap (λ v. hash_pair (tree_root d (take (width d) (next_level xs))) v) right
      ∙ sym (tree_root-suc d (next_level xs))

  -- More fuel than the depth is enough.
  compute_merkle_root-tree_root :
      (d f : ℕ) (xs : List Bytes)
      → IsDepth d (length xs)
      → d < f
      → compute_merkle_root f xs ≡ some (tree_root d xs)
  unfolding compute_merkle_root tree_root
  compute_merkle_root-tree_root d zero xs h l = absurd (omega arith)
  compute_merkle_root-tree_root zero (suc f) [] h l = absurd (omega arith)
  compute_merkle_root-tree_root zero (suc f) (x ∷ []) h l = refl
  compute_merkle_root-tree_root zero (suc f) (x ∷ y ∷ xs) h l = absurd (omega arith)
  compute_merkle_root-tree_root (suc d) (suc f) [] (lo, hi) l = absurd (omega arith)
  compute_merkle_root-tree_root (suc d) (suc f) (x ∷ []) (lo, hi) l =
      absurd (omega (arith, width-pos d))
  compute_merkle_root-tree_root (suc d) (suc f) (x ∷ y ∷ xs) (lo, hi) l =
      let next = next_level (x ∷ y ∷ xs) in
      compute_merkle_root-tree_root d f next (IsDepth-next_level d (x ∷ y ∷ xs) lo hi) (omega arith)
      ∙ ap some (sym (step d (x ∷ y ∷ xs) (omega arith) hi))

  pub length-leaves_from :
      (i : ℕ) (items : List BatchItem) → length (leaves_from i items) ≡ length items
  unfolding leaves_from
  length-leaves_from i [] = refl
  length-leaves_from i (item ∷ items) = ap suc (length-leaves_from (i + 1) items)

  -- The check of a batch with an item ends in no panic, so the recursion of the root ends. It
  -- accepts when the declared root, in lower case and without `0x`, is the hexadecimal of the root
  -- of the tree over the items' leaves, a tree of the least depth that has a place for each, where
  -- an empty half is a copy of its sibling; and it reports a mismatch otherwise.
  pub verify_merkle_root-tree_root :
      (item : BatchItem) (items : List BatchItem) (declared : Bytes)
      → (d : ℕ) × IsDepth d (length (item ∷ items))
        × (verify_merkle_root (item ∷ items) declared ≡ (
            if hex_encode (tree_root d (leaves_from 0 (item ∷ items))) == normalized declared
            then ok tt
            else err merkle_root_mismatch))
  unfolding verify_merkle_root compute_merkle_root hex_encode leaves_from tree_root
  verify_merkle_root-tree_root item items declared =
      let leaves = leaves_from 0 (item ∷ items) in
      let (d, deep) = IsDepth-exists (length items) in
      let same = length-leaves_from 0 (item ∷ items) in
      let enough : d < length leaves =
        subst (λ n. d < n) (sym same) (IsDepth-lt d (length (item ∷ items)) deep) in
      (
        d,
        deep,
        rw
            (compute_merkle_root-tree_root d (length leaves) leaves
              (subst (IsDepth d) (sym same) deep) enough)
            refl,
      )
