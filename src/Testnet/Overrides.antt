-- ===== src/Testnet/Overrides.antt =====
-- The overrides of chain/cmd/energychaind/cmd/testnet_utils.go.
use energychain_node.Prelude.{
  ◌≡◌, ◌≢◌, ◌↔◌, refl, subst, ap, ◌∙◌, false, some, inl, inr, [], ◌∷◌, ◌++◌, Bytes, All, eqb, arith,
  Bool-cases, Option-cases, Option,
}
use energychain_node.Outcome.{ok, ok-injective}
use energychain_node.Testnet.{split_first, parse_config_override}

-- The text is a field without `=`, an `=` and a value.
abbrev pub IsOverride : Bytes → Bytes × Bytes → Type 0
IsOverride s r = (s ≡ r.0 ++ (b'=' ∷ r.1)) × All (λ c. c ≢ b'=') r.0

some_same : {A : Type 0} {a b : A} → ◌≡◌ {A = Option A} (some a) (some b) → a ≡ b
some_same h = cc

split_first-IsOverride : (s : Bytes) (r : Bytes × Bytes) → split_first s ≡ some r → IsOverride s r
unfolding split_first
split_first-IsOverride [] r h = cc
split_first-IsOverride (c ∷ s) r h = elim (Bool-cases (eqb c b'=')) [
  | inl e ↦
      let first : c ≡ b'=' = ground arith in
      subst (IsOverride (c ∷ s)) (some_same (rw (split_first, e) at h)) (ap (λ x. x ∷ s) first, tt)
  | inr e ↦ elim (Option-cases (split_first s)) [
    | inl stuck ↦ absurd (cc (rw (split_first, e, stuck) at h))
    | inr ((f, v), later) ↦
        let (same, clean) = split_first-IsOverride s (f, v) later in
        let other : c ≢ b'=' = ground arith in
        subst (IsOverride (c ∷ s)) (some_same (rw (split_first, e, later) at h))
          (ap (λ x. c ∷ x) same, (other, clean))
  ]
]

split_first-append :
    (f v : Bytes) → All (λ c. c ≢ b'=') f → split_first (f ++ (b'=' ∷ v)) ≡ some (f, v)
unfolding split_first
split_first-append [] v h = refl
split_first-append (c ∷ f) v (ne, h) =
    let other : eqb c b'=' ≡ false = ground arith in rw (other, split_first-append f v h) refl

module _ {E : Type 0} where
  -- An override is read as a field and a value exactly if it is the field, which has no `=`, an `=`
  -- and the value.
  pub parse_config_override-IsOverride :
      (s : Bytes) (r : Bytes × Bytes) → (parse_config_override {E = E} s ≡ ok r) ↔ IsOverride s r
  unfolding parse_config_override
  parse_config_override-IsOverride s r = (reads, prints)
    where
      prints : IsOverride s r → parse_config_override {E = E} s ≡ ok r
      prints (same, clean) =
          let split : split_first s ≡ some r =
            ap split_first same ∙ split_first-append r.0 r.1 clean in
          rw (parse_config_override, split) refl

      reads : parse_config_override {E = E} s ≡ ok r → IsOverride s r
      reads h = elim (Option-cases (split_first s)) [
        | inl stuck ↦ absurd (cc (rw (parse_config_override, stuck) at h))
        | inr (q, split) ↦
            subst (IsOverride s) (ok-injective (rw (parse_config_override, split) at h))
              (split_first-IsOverride s q split)
      ]
