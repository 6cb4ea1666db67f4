-- ===== src/Testnet/Powers.antt =====
-- The powers that `parseValidatorPowers` of chain/cmd/energychaind/cmd/testnet_utils.go gives.
use energychain_node.Prelude.{
  ◌≡◌, ◌<◌, ◌+◌, refl, ap, ℕ, zero, suc, some, inl, inr, List, [], ◌∷◌, All, length, arith,
  Bool-cases,
}
use energychain_node.Prelude.Int.{ℤ, pos, ◌<ℤ◌, leb_ℤ}
use energychain_node.Outcome.{Outcome, ok, err, panic}
use energychain_node.Testnet.{
  PowersError, element, power_index, prepend, powers_from, hundreds, parse_validator_powers,
}

-- So many validators, each with a positive power.
abbrev pub IsPowers : ℕ → List ℤ → Type 0
IsPowers n result = (length result ≡ n) × All (λ p. pos 0 <ℤ p) result

-- A run that does not panic, with such a result if it succeeds.
abbrev pub IsSafe : ℕ → Outcome PowersError (List ℤ) → Type 0
IsSafe n (ok result) = IsPowers n result
IsSafe n (err e) = Unit
IsSafe n panic = ⊥

prepend-IsSafe :
    (n : ℕ) (p : ℤ) (r : Outcome PowersError (List ℤ))
    → pos 0 <ℤ p
    → IsSafe n r
    → IsSafe (suc n) (prepend p r)
prepend-IsSafe n p (ok rest) h (l, all) = (ap suc l, (h, all))
prepend-IsSafe n p (err e) h s = tt
prepend-IsSafe n p panic h s = s

element-some : (xs : List ℤ) (i : ℕ) → i < length xs → (x : ℤ) × (element xs i ≡ some x)
element-some [] i h = absurd (omega arith)
element-some (x ∷ xs) zero h = (x, refl)
element-some (x ∷ xs) (suc i) h = element-some xs i (omega arith)

power_index-lt : (xs : List ℤ) (i : ℕ) → 0 < length xs → power_index xs i < length xs
power_index-lt xs i h = ground arith

powers_from-IsSafe : (xs : List ℤ) (i n : ℕ) → 0 < length xs → IsSafe n (powers_from xs i n)
unfolding powers_from
powers_from-IsSafe xs i zero h = (refl, tt)
powers_from-IsSafe xs i (suc n) h =
    let (p, there) = element-some xs (power_index xs i) (power_index-lt xs i h) in
    elim (Bool-cases (leb_ℤ p (pos 0))) [
      | inl bad ↦ rw (powers_from, there, bad) tt
      | inr good ↦
          let positive : pos 0 <ℤ p = ground arith in
          rw (powers_from, there, good)
            (prepend-IsSafe n p (powers_from xs (i + 1) n) positive
              (powers_from-IsSafe xs (i + 1) n h))
    ]

hundreds-IsPowers : (n : ℕ) → IsPowers n (hundreds n)
hundreds-IsPowers zero = (refl, tt)
hundreds-IsPowers (suc n) = let (l, all) = hundreds-IsPowers n in (ap suc l, (omega arith, all))

-- The powers of a number of validators are read without an index out of range, and a success has one
-- positive power for each of them, of which there is at least one.
pub parse_validator_powers-IsSafe :
    (powers : List ℤ) (n : ℕ) → IsSafe n (parse_validator_powers powers (pos n))
unfolding parse_validator_powers
parse_validator_powers-IsSafe powers zero = tt
parse_validator_powers-IsSafe [] (suc n) = hundreds-IsPowers (suc n)
parse_validator_powers-IsSafe (p ∷ ps) (suc n) = powers_from-IsSafe (p ∷ ps) 0 (suc n) (omega arith)
