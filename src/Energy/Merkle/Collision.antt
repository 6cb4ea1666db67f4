-- ===== src/Energy/Merkle/Collision.antt =====
-- What equal hashes say of what was hashed in `hashPair` and `computeMerkleRoot` of
-- chain/x/energy/keeper/msg_server.go: the same, or a collision of the digest.
use energychain_node.Prelude.{
  ◌≡◌, ◌≢◌, ◌⊎◌, refl, sym, ap, ◌∙◌, inl, inr, List, [], ◌∷◌, ◌++◌, Bytes, length, drop, In, All,
  arith, Bool-cases, eq-cases, list_eq, ℕ_eq, subst,
}
use energychain_node.Hex.{hex_encode, compare_le}
use energychain_node.Crypto.{Crypto}
use energychain_node.Energy.Merkle.{hash_pair, next_level}

pub append-injective :
    {A : Type 0} (a b c d : List A) → length a ≡ length c → a ++ b ≡ c ++ d → (a ≡ c) × (b ≡ d)
append-injective [] b [] d l e = (refl, e)
append-injective [] b (y ∷ c) d l e = absurd (omega arith)
append-injective (x ∷ a) b [] d l e = absurd (omega arith)
append-injective (x ∷ a) b (y ∷ c) d l e =
    let (same, rest) = append-injective a b c d (omega arith) (ap (drop 1) e) in
    let first : x ≡ y = cc e in (rw (first, same) refl, rest)

-- An alternative that does not depend on the element is one for the list.
pub All-or :
    {A : Type 0} {C : Type 0} (P : A → Type 0) (xs : List A)
    → ((x : A) → In x xs → C ⊎ P x)
    → C ⊎ All P xs
All-or P [] h = inr tt
All-or P (x ∷ xs) h = elim (h x (inl refl)) [
  | inl c ↦ inl c
  | inr p ↦ elim (All-or P xs (λ y m. h y (inr m))) [ inl c ↦ inl c | inr ps ↦ inr (p, ps) ]
]

module _ ⦃c : Crypto⦄ where
  -- Two texts with one digest.
  abbrev pub Collision : Type 0
  Collision = (x : Bytes) × (y : Bytes) × (x ≢ y) × (c.keccak256 x ≡ c.keccak256 y)

  pub same_or_Collision : (x y : Bytes) → c.keccak256 x ≡ c.keccak256 y → Collision ⊎ (x ≡ y)
  same_or_Collision x y e = elim (eq-cases x y) [
    | inl same ↦ inr same
    | inr (_, ne) ↦ inl (x, y, ne, e)
  ]

  abbrev pub OneOf : Bytes → Bytes → Bytes → Type 0
  OneOf x a b = (x ≡ a) ⊎ (x ≡ b)

  abbrev pub IsDigest : Bytes → Type 0
  IsDigest x = length x ≡ 32

  -- The text that is hashed is one of the two orders.
  pub hash_pair-cases :
      (a b : Bytes)
      → (hash_pair a b ≡ c.keccak256 (a ++ b)) ⊎ (hash_pair a b ≡ c.keccak256 (b ++ a))
  unfolding hash_pair
  hash_pair-cases a b = elim (Bool-cases (compare_le (hex_encode a) (hex_encode b))) [
    | inl e ↦ inl (rw e refl)
    | inr e ↦ inr (rw e refl)
  ]

  halves :
      (a b x y : Bytes)
      → IsDigest a
      → IsDigest x
      → c.keccak256 (a ++ b) ≡ c.keccak256 (x ++ y)
      → Collision ⊎ ((a ≡ x) × (b ≡ y))
  halves a b x y da dx e = elim (same_or_Collision (a ++ b) (x ++ y) e) [
    | inl col ↦ inl col
    | inr same ↦ inr (append-injective a b x y (da ∙ sym dx) same)
  ]

  pub hash_pair-OneOf :
      (a b x y : Bytes)
      → IsDigest a
      → IsDigest b
      → IsDigest x
      → IsDigest y
      → hash_pair a b ≡ hash_pair x y
      → Collision ⊎ (OneOf a x y × OneOf b x y)
  hash_pair-OneOf a b x y da db dx dy e = elim (hash_pair-cases a b) [
    | inl p ↦ elim (hash_pair-cases x y) [
      | inl q ↦ elim (halves a b x y da dx (sym p ∙ e ∙ q)) [
        | inl col ↦ inl col
        | inr (s, t) ↦ inr (inl s, inr t)
      ]
      | inr q ↦ elim (halves a b y x da dy (sym p ∙ e ∙ q)) [
        | inl col ↦ inl col
        | inr (s, t) ↦ inr (inr s, inl t)
      ]
    ]
    | inr p ↦ elim (hash_pair-cases x y) [
      | inl q ↦ elim (halves b a x y db dx (sym p ∙ e ∙ q)) [
        | inl col ↦ inl col
        | inr (s, t) ↦ inr (inr t, inl s)
      ]
      | inr q ↦ elim (halves b a y x db dy (sym p ∙ e ∙ q)) [
        | inl col ↦ inl col
        | inr (s, t) ↦ inr (inl t, inr s)
      ]
    ]
  ]

  -- The hash of a round is the hash of a pair of what was there before it.
  pub next_level-In :
      (ys : List Bytes) (h : Bytes)
      → In h (next_level ys)
      → (x : Bytes) × (y : Bytes) × (h ≡ hash_pair x y) × In x ys × In y ys
  unfolding next_level
  next_level-In [] h m = elim m [ ]
  next_level-In (x ∷ []) h (inl e) = (x, x, e, inl refl, inl refl)
  next_level-In (x ∷ []) h (inr m) = elim m [ ]
  next_level-In (x ∷ y ∷ ys) h (inl e) = (x, y, e, inl refl, inr (inl refl))
  next_level-In (x ∷ y ∷ ys) h (inr m) =
      let (a, b, e, i, j) = next_level-In ys h m in (a, b, e, inr (inr i), inr (inr j))

  -- Each hash before a round has a partner, which may be itself.
  pub In-next_level :
      (xs : List Bytes) (a : Bytes)
      → In a xs
      → (x : Bytes) × (y : Bytes) × In (hash_pair x y) (next_level xs)
        × In x xs
        × In y xs
        × OneOf a x y
  unfolding next_level
  In-next_level [] a m = elim m [ ]
  In-next_level (x ∷ []) a (inl e) = (x, x, inl refl, inl refl, inl refl, inl e)
  In-next_level (x ∷ []) a (inr m) = elim m [ ]
  In-next_level (x ∷ y ∷ xs) a (inl e) = (x, y, inl refl, inl refl, inr (inl refl), inl e)
  In-next_level (x ∷ y ∷ xs) a (inr (inl e)) = (x, y, inl refl, inl refl, inr (inl refl), inr e)
  In-next_level (x ∷ y ∷ xs) a (inr (inr m)) =
      let (u, v, p, i, j, o) = In-next_level xs a m in (u, v, inr p, inr (inr i), inr (inr j), o)

  pub In-OneOf : (ys : List Bytes) (a x y : Bytes) → In x ys → In y ys → OneOf a x y → In a ys
  In-OneOf ys a x y i j (inl e) = subst (λ z. In z ys) (sym e) i
  In-OneOf ys a x y i j (inr e) = subst (λ z. In z ys) (sym e) j
