-- ===== src/Energy/Merkle/Depth.antt =====
-- Depths of binary trees with a given number of leaves.
use energychain_node.Prelude.{
  ℕ, zero, suc, ◌+◌, ◌≤◌, ◌<◌, ◌≡◌, refl, inl, inr, arith, leb, Bool-cases,
}

abbrev pub double : ℕ → ℕ
double zero = zero
double (suc n) = suc (suc (double n))

-- 2 ^ d, by doubling.
abbrev pub width : ℕ → ℕ
width zero = 1
width (suc d) = double (width d)

pub double-add : (n : ℕ) → double n ≡ n + n
double-add zero = refl
double-add (suc n) = omega (arith, double-add n)

pub width-pos : (d : ℕ) → 0 < width d
width-pos zero = omega arith
width-pos (suc d) = omega (arith, double-add (width d), width-pos d)

pub lt-width : (d : ℕ) → d < width d
lt-width zero = omega arith
lt-width (suc d) = omega (arith, double-add (width d), lt-width d, width-pos d)

-- `d` is the least depth at which `n` leaves have a place.
abbrev pub IsDepth : ℕ → ℕ → Type 0
IsDepth zero n = n ≡ 1
IsDepth (suc d) n = (width d < n) × (n ≤ width (suc d))

pub IsDepth-exists : (n : ℕ) → (d : ℕ) × IsDepth d (suc n)
IsDepth-exists zero = (0, refl)
IsDepth-exists (suc n) = larger (IsDepth-exists n)
  where
    larger : (d : ℕ) × IsDepth d (suc n) → (d : ℕ) × IsDepth d (suc (suc n))
    larger (zero, e) = (1, (omega arith, omega arith))
    larger (suc d, (lo, hi)) = elim (Bool-cases (leb (suc (suc n)) (width (suc d)))) [
      | inl fits ↦ (suc d, (omega arith, ground arith))
      | inr full ↦ (
        suc (suc d),
        (ground arith, omega (arith, double-add (width (suc d)), width-pos (suc d), hi)),
      )
    ]

pub IsDepth-lt : (d n : ℕ) → IsDepth d n → d < n
IsDepth-lt zero n e = omega arith
IsDepth-lt (suc d) n (lo, hi) = omega (arith, lt-width d)
