-- ===== src/Export/Restart.antt =====
-- What it is for the records of the staking and slashing modules to start again at height 0: the
-- words in which the preparation of chain/export.go is specified.
use energychain_node.Prelude.{
  ◌≡◌, refl, ◌⊎◌, ◌↔◌, inl, inr, true, List, [], ◌∷◌, map, arith, Bytes, In, listed, length, ltb,
  ◌==◌, eq_iff, list_eq, ℕ_eq, Bool-cases, subst, sym,
}
use energychain_node.Prelude.Int.{pos}
use energychain_node.Sdk.Store.{Lookup, found, not_found, failed}
use energychain_node.Export.Keepers.{
  Validator, Entry, Redelegation, UnbondingDelegation, SigningInfo, Stores, Keepers,
}
use energychain_node.Export.Reset.{map_lookup}
use energychain_node.Export.ZeroHeight.{
  created_at_zero, reset_redelegation, reset_unbonding, restarted,
}

-- What is there before is there after, as the relation says, and nothing else.
abbrev pub Related : {V : Type 0} → (V → V → Type 0) → Lookup V → Lookup V → Type 0
Related R (found v) (found w) = R v w
Related R not_found not_found = Unit
Related R failed failed = Unit
Related R _ _ = ⊥

pub Related-map_lookup :
    {V : Type 0} (R : V → V → Type 0) (f : V → V) (l m : Lookup V)
    → ((v : V) → R v (f v))
    → m ≡ map_lookup f l
    → Related R l m
Related-map_lookup R f (found v) m h e = subst (Related R (found v)) (sym e) (h v)
Related-map_lookup R f not_found m h e = subst (Related R not_found) (sym e) tt
Related-map_lookup R f failed m h e = subst (Related R failed) (sym e) tt

-- The same entries, all created at height 0.
abbrev pub AtZero : List Entry → List Entry → Type 0
AtZero [] [] = Unit
AtZero (x ∷ xs) (y ∷ ys) = ((y.others ≡ x.others) × (y.creation_height ≡ pos 0)) × AtZero xs ys
AtZero _ _ = ⊥

AtZero-map : (es : List Entry) → AtZero es (map created_at_zero es)
AtZero-map [] = tt
AtZero-map (e ∷ es) = ((refl, refl), AtZero-map es)

pub record IsRedelegationAtZero (r q : Redelegation) : Type 0 where
  pub delegator_address : q.delegator_address ≡ r.delegator_address
  pub validator_src_address : q.validator_src_address ≡ r.validator_src_address
  pub validator_dst_address : q.validator_dst_address ≡ r.validator_dst_address
  pub entries : AtZero r.entries q.entries

pub record IsUnbondingAtZero (r q : UnbondingDelegation) : Type 0 where
  pub delegator_address : q.delegator_address ≡ r.delegator_address
  pub validator_address : q.validator_address ≡ r.validator_address
  pub entries : AtZero r.entries q.entries

abbrev pub StartsAtZero : SigningInfo → SigningInfo → Type 0
StartsAtZero i j = (j.start_height ≡ pos 0) × (j.others ≡ i.others)

pub reset_redelegation_lem : (r : Redelegation) → IsRedelegationAtZero r (reset_redelegation r)
reset_redelegation_lem r = record {
  delegator_address = refl;
  validator_src_address = refl;
  validator_dst_address = refl;
  entries = AtZero-map r.entries;
}

pub reset_unbonding_lem : (r : UnbondingDelegation) → IsUnbondingAtZero r (reset_unbonding r)
reset_unbonding_lem r = record {
  delegator_address = refl;
  validator_address = refl;
  entries = AtZero-map r.entries;
}

listed-In : (a : Bytes) (l : List Bytes) → (listed a l ≡ true) ↔ In a l
listed-In a [] = (λ h. cc, λ h. elim h [ ])
listed-In a (x ∷ xs) =
    let (there, back) = listed-In a xs in
    let (same, back') = eq_iff x a in
    elim (Bool-cases (x == a)) [
      | inl p ↦ rw p (λ _. inl (sym (same p)), λ _. refl)
      | inr p ↦ rw p (
        λ h. inr (there h),
        λ h. elim h [ inl q ↦ absurd (cc (back' (sym q), p)) | inr i ↦ back i ],
      )
    ]

module _ ⦃t : Stores⦄ ⦃k : Keepers⦄ (allowed : List Bytes) (a : Bytes) where
  -- The list is given and does not name the validator.
  abbrev pub IsLeftOut : Type 0
  IsLeftOut = ¬ (allowed ≡ []) × ¬ (In (k.val_address_string a) allowed)

  pub record IsValidatorAtZero (v w : Validator) : Type 0 where
    pub operator : w.operator ≡ v.operator
    pub others : w.others ≡ v.others
    pub unbonding_height : w.unbonding_height ≡ pos 0
    pub jailed : (w.jailed ≡ true) ↔ ((v.jailed ≡ true) ⊎ IsLeftOut)

  given : (l : List Bytes) → (ltb 0 (length l) ≡ true) ↔ ¬ (l ≡ [])
  given [] = (λ h. cc, λ h. absurd (h refl))
  given (x ∷ xs) = (λ _ p. cc, λ _. ground arith)

  pub restarted_lem : (v : Validator) → IsValidatorAtZero v (restarted allowed a v)
  restarted_lem v =
      let (give, back) = given allowed in
      let (there, back') = listed-In (k.val_address_string a) allowed in
      record {
        operator = refl;
        others = refl;
        unbonding_height = refl;
        jailed = elim (Bool-cases (ltb 0 (length allowed))) [
          | inr none_given ↦ rw none_given (
            λ h. inl h,
            λ h. elim h [ inl p ↦ p | inr out ↦ absurd (cc (back out.0, none_given)) ],
          )
          | inl some_given ↦ elim (Bool-cases (listed (k.val_address_string a) allowed)) [
            | inl named ↦
                rw (some_given, named)
                  (λ h. inl h, λ h. elim h [ inl p ↦ p | inr out ↦ absurd (out.1 (there named)) ])
            | inr unnamed ↦
                rw (some_given, unnamed)
                  (λ _. inr (give some_given, λ i. cc (back' i, unnamed)), λ _. refl)
          ]
        ];
      }
