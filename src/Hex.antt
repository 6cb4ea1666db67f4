-- ===== src/Hex.antt =====
-- What the code uses of Go's encoding/hex and strings on texts in hexadecimal.
use energychain_node.Prelude.{
  ◌≡◌, refl, ap, arith, ℕ, ◌+◌, ◌/◌, ◌%◌, Bool, true, false, ◌&&◌, [], ◌∷◌, map, Bytes, codes, ltb,
  leb, ◌==◌, list_eq, ℕ_eq, take, drop, if◌then◌else◌,
}

unfoldable pub hex_digit : ℕ → ℕ
hex_digit n = if ltb n 10 then 48 + n else 87 + n

abbrev pub upper_digit : ℕ → ℕ
upper_digit n = if ltb n 10 then 48 + n else 55 + n

-- `hex.EncodeToString`
unfoldable pub hex_encode : Bytes → Bytes
unfolding hex_digit
hex_encode [] = []
hex_encode (b ∷ bs) = hex_digit (b / 16) ∷ hex_digit (b % 16) ∷ hex_encode bs

-- `%X` of a byte slice
unfoldable pub hex_encode_upper : Bytes → Bytes
hex_encode_upper [] = []
hex_encode_upper (b ∷ bs) = upper_digit (b / 16) ∷ upper_digit (b % 16) ∷ hex_encode_upper bs

-- `strings.Compare(a, b) <= 0`
unfoldable pub compare_le : Bytes → Bytes → Bool
compare_le [] ys = true
compare_le (x ∷ xs) [] = false
compare_le (x ∷ xs) (y ∷ ys) =
    let rest = compare_le xs ys in if ltb x y then true else if ltb y x then false else rest

unfoldable pub lower_byte : ℕ → ℕ
lower_byte c = if leb b'A' c && leb c b'Z' then c + 32 else c

-- `strings.ToLower` on ASCII. Other letters keep their bytes here; the result is only compared with
-- hexadecimal digits, and no letter outside ASCII has one of those or an x for its lower case.
unfoldable pub to_lower : Bytes → Bytes
unfolding lower_byte
to_lower = map lower_byte

-- `strings.TrimPrefix(s, "0x")`
unfoldable pub trim_0x : Bytes → Bytes
trim_0x s = if take 2 s == codes "0x" then drop 2 s else s

hex_digit-injective : (m n : ℕ) → hex_digit m ≡ hex_digit n → m ≡ n
unfolding hex_digit
hex_digit-injective m n h = ground arith

pub hex_encode-injective : (a b : Bytes) → hex_encode a ≡ hex_encode b → a ≡ b
unfolding hex_encode
hex_encode-injective [] [] h = refl
hex_encode-injective [] (y ∷ b) h = cc
hex_encode-injective (x ∷ a) [] h = cc
hex_encode-injective (x ∷ a) (y ∷ b) h =
    let high = hex_digit-injective (x / 16) (y / 16) (ap (head_at 0) h) in
    let low = hex_digit-injective (x % 16) (y % 16) (ap (head_at 1) h) in
    let same : x ≡ y = omega arith in
    rw same (ap (λ l. y ∷ l) (hex_encode-injective a b (ap (drop 2) h)))
  where
    head_at : ℕ → Bytes → ℕ
    head_at n l = elim (drop n l) [ [] ↦ 0 | c ∷ _ ↦ c ]
