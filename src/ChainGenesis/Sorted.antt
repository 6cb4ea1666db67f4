-- ===== src/ChainGenesis/Sorted.antt =====
-- The active precompiles of `NewEVMGenesisState` of chain/genesis.go: the EVM module refuses a list
-- that is not sorted.
use energychain_node.Prelude.{
  ◌≡◌, ◌⊎◌, refl, true, false, inl, inr, List, [], ◌∷◌, ◌++◌, Bytes, In, Bool-cases, arith,
}
use energychain_node.Hex.{compare_le}
use energychain_node.ChainGenesis.{
  insert, sort_strings, EvmGenesis, new_evm_genesis_state, energy_precompile_address,
  identity_precompile_address,
}

compare_le-total : (x y : Bytes) → compare_le x y ≡ false → compare_le y x ≡ true
unfolding compare_le
compare_le-total [] y h = cc
compare_le-total (a ∷ x) [] h = refl
compare_le-total (a ∷ x) (b ∷ y) h = ground (arith, compare_le-total x y)

-- Each element is at most its successor.
abbrev pub IsSorted : List Bytes → Type 0
IsSorted [] = Unit
IsSorted (x ∷ []) = Unit
IsSorted (x ∷ y ∷ ys) = (compare_le x y ≡ true) × IsSorted (y ∷ ys)

insert-IsSorted : (x : Bytes) (ys : List Bytes) → IsSorted ys → IsSorted (insert x ys)
insert-IsSorted x [] h = tt
insert-IsSorted x (y ∷ []) h = elim (Bool-cases (compare_le x y)) [
  | inl e ↦ rw e (e, tt)
  | inr e ↦ rw e (compare_le-total x y e, tt)
]
insert-IsSorted x (y ∷ z ∷ ys) (yz, h) = elim (Bool-cases (compare_le x y)) [
  | inl e ↦ rw e (e, (yz, h))
  | inr e ↦ elim (Bool-cases (compare_le x z)) [
    | inl f ↦ rw (e, f) (compare_le-total x y e, (f, h))
    | inr f ↦ let rest = insert-IsSorted x (z ∷ ys) h in rw (e, f) (yz, (rw f at rest))
  ]
]

sort_strings-IsSorted : (xs : List Bytes) → IsSorted (sort_strings xs)
sort_strings-IsSorted [] = tt
sort_strings-IsSorted (x ∷ xs) = insert-IsSorted x (sort_strings xs) (sort_strings-IsSorted xs)

insert-In : (x : Bytes) (ys : List Bytes) (a : Bytes) → In a (x ∷ ys) → In a (insert x ys)
insert-In x [] a m = m
insert-In x (y ∷ ys) a m = elim (Bool-cases (compare_le x y)) [
  | inl e ↦ rw e m
  | inr e ↦ elim m [
    | inl p ↦ rw e (inr (insert-In x ys a (inl p)))
    | inr n ↦ elim n [ inl p ↦ rw e (inl p) | inr i ↦ rw e (inr (insert-In x ys a (inr i))) ]
  ]
]

sort_strings-In : (xs : List Bytes) (a : Bytes) → In a xs → In a (sort_strings xs)
sort_strings-In [] a m = m
sort_strings-In (x ∷ xs) a (inl p) = insert-In x (sort_strings xs) a (inl p)
sort_strings-In (x ∷ xs) a (inr m) = insert-In x (sort_strings xs) a (inr (sort_strings-In xs a m))

In-append : (xs ys : List Bytes) (a : Bytes) → (In a xs) ⊎ (In a ys) → In a (xs ++ ys)
In-append [] ys a (inl m) = elim m [ ]
In-append [] ys a (inr m) = m
In-append (x ∷ xs) ys a (inl (inl p)) = inl p
In-append (x ∷ xs) ys a (inl (inr m)) = inr (In-append xs ys a (inl m))
In-append (x ∷ xs) ys a (inr m) = inr (In-append xs ys a (inr m))

module _ {Preinstalls Rest : Type 0} where
  -- The active precompiles are sorted, as the EVM module demands, and have every precompile that the
  -- EVM library makes available and the two of this chain.
  pub new_evm_genesis_state-IsSorted :
      (default : EvmGenesis Preinstalls Rest) (available : List Bytes)
      (default_preinstalls : Preinstalls)
      → let active =
          (new_evm_genesis_state default available default_preinstalls).active_static_precompiles in
        IsSorted active
        × ((a : Bytes) → In a available → In a active)
        × In energy_precompile_address active
        × In identity_precompile_address active
  unfolding new_evm_genesis_state
  new_evm_genesis_state-IsSorted default available default_preinstalls =
      let ours = energy_precompile_address ∷ identity_precompile_address ∷ [] in
      let all = available ++ ours in
      (
        sort_strings-IsSorted all,
        λ a m. sort_strings-In all a (In-append available ours a (inl m)),
        sort_strings-In all energy_precompile_address
            (In-append available ours energy_precompile_address (inr (inl refl))),
        sort_strings-In all identity_precompile_address
            (In-append available ours identity_precompile_address (inr (inr (inl refl)))),
      )
