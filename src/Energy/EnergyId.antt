-- ===== src/Energy/EnergyId.antt =====
-- The record identifiers "energy-N": `fmt.Sprintf("energy-%d", n)` and `parseEnergyID` of
-- chain/x/energy/keeper/keeper.go.
use energychain_node.Prelude.{
  ℕ, zero, suc, ◌+◌, ◌-◌, ◌*◌, ◌/◌, ◌%◌, ◌^◌, ◌<◌, ◌≡◌, ◌∙◌, ap, not, ◌||◌, Option, none, some, [],
  ◌∷◌, ◌++◌, arith, Bytes, codes, length, length-append, take, drop, ltb, leb, ◌==◌, list_eq, ℕ_eq,
  if◌then◌else◌, Bool-cases, inl, inr,
}

-- The decimal digits of n, the last one first decided: the fuel n + 1 is enough.
digits : ℕ → ℕ → Bytes
digits zero n = []
digits (suc f) n =
    let front = digits f (n / 10) in if ltb n 10 then (48 + n) ∷ [] else front ++ (48 + n % 10) ∷ []

-- `%d` of a uint64
unfoldable pub decimal : ℕ → Bytes
unfolding digits
decimal n = digits (suc n) n

abbrev pub prefix : Bytes
prefix = codes "energy-"

unfoldable pub energy_id : ℕ → Bytes
energy_id n = prefix ++ decimal n

-- The loop of `parseEnergyID`, on a uint64 that wraps around.
unfoldable pub parse_digits : ℕ → Bytes → Option ℕ
parse_digits n [] = some n
parse_digits n (c ∷ cs) =
    let rest = parse_digits ((n * 10 + (c - 48)) % 2 ^ 64) cs in
    if ltb c 48 || ltb 57 c then none else rest

-- `none` is (0, false).
unfoldable pub parse_energy_id : Bytes → Option ℕ
unfolding parse_digits
parse_energy_id id =
    if leb (length id) (length prefix) || not (take (length prefix) id == prefix)
    then none
    else parse_digits 0 (drop (length prefix) id)

-- The digits read so far, and then one more.
parse_digits-concat :
    (a : ℕ) (xs : Bytes) (m c : ℕ)
    → parse_digits a xs ≡ some m
    → c < 10
    → parse_digits a (xs ++ (48 + c) ∷ []) ≡ some ((m * 10 + c) % 2 ^ 64)
unfolding parse_digits
parse_digits-concat a [] m c h l = ground arith
parse_digits-concat a (x ∷ xs) m c h l =
    ground (arith, parse_digits-concat ((a * 10 + (x - 48)) % 2 ^ 64) xs m c)

parse_digits-digits : (f n : ℕ) → n < f → n < 2 ^ 64 → parse_digits 0 (digits f n) ≡ some n
unfolding digits parse_digits
parse_digits-digits zero n h l = elim h [ ]
parse_digits-digits (suc f) n h l = elim (Bool-cases (ltb n 10)) [
  | inl small ↦ rw small (ground arith)
  | inr large ↦ rw large (
      parse_digits-concat 0 (digits f (n / 10)) (n / 10) (n % 10)
        (parse_digits-digits f (n / 10) (ground arith) (omega arith)) (omega arith)
      ∙ ap some (ground arith))
]

digits-pos : (f n : ℕ) → n < f → 0 < length (digits f n)
unfolding digits
digits-pos zero n h = elim h [ ]
digits-pos (suc f) n h = ground (arith, length-append (digits f (n / 10)) ((48 + n % 10) ∷ []))

decimal-pos : (n : ℕ) → 0 < length (decimal n)
unfolding decimal
decimal-pos n = digits-pos (suc n) n (omega arith)

parse_digits-decimal : (n : ℕ) → n < 2 ^ 64 → parse_digits 0 (decimal n) ≡ some n
unfolding decimal
parse_digits-decimal n l = parse_digits-digits (suc n) n (omega arith) l

-- Every uint64 is read back from the identifier that is made of it.
pub parse_energy_id-energy_id : (n : ℕ) → n < 2 ^ 64 → parse_energy_id (energy_id n) ≡ some n
unfolding parse_energy_id energy_id
parse_energy_id-energy_id n l = ground (arith, decimal-pos n, parse_digits-decimal n l)

-- No two uint64 numbers have the same identifier.
pub energy_id_inj : (m n : ℕ) → m < 2 ^ 64 → n < 2 ^ 64 → energy_id m ≡ energy_id n → m ≡ n
energy_id_inj m n hm hn e =
    ground
      (arith, parse_energy_id-energy_id m hm, parse_energy_id-energy_id n hn, ap parse_energy_id e)
