-- ===== src/Energy/Client/Roots.antt =====
-- What `normaliseHex` of chain/x/energy/client/cli/tx.go does to a Merkle root, for the check of
-- chain/x/energy/keeper/msg_server.go that the root then meets.
use energychain_node.Prelude.{
  ◌≡◌, refl, sym, ap, ℕ, Bool, true, false, ◌&&◌, ◌||◌, inl, inr, some, none, List, [], ◌∷◌, ◌++◌,
  Bytes, codes, take, arith, ◌==◌, list_eq, ℕ_eq, if-elim, Bool-cases, if◌then◌else◌, not, eqb,
  length, ◌%◌,
}
use energychain_node.Crypto.{Crypto}
use energychain_node.Hex.{hex_encode, to_lower, trim_0x, lower_byte}
use energychain_node.Energy.Types.{BatchItem}
use energychain_node.Energy.State.{Error, merkle_root_mismatch}
use energychain_node.Outcome.{Outcome, ok, err, panic}
use energychain_node.Energy.Merkle.{
  compute_merkle_root, leaves_from, normalized, verify_merkle_root,
}
use energychain_node.Energy.Client.{
  is_hex_digit, all_hex_digits, is_hex, with_prefix, normalise_hex, trim_space,
}

not_x : (d : ℕ) → is_hex_digit d ≡ true → eqb (lower_byte d) 120 ≡ false
unfolding lower_byte
not_x d h = ground arith

and_false : (a : Bool) → a && false ≡ false
and_false true = refl
and_false false = refl

and_true : (a b : Bool) → a && b ≡ true → (a ≡ true) × (b ≡ true)
and_true true b h = (refl, h)
and_true false b h = cc

module _ ⦃c : Crypto⦄ where
  -- A text of hexadecimal digits in lower case has no prefix to trim.
  no_prefix : (s : Bytes) → all_hex_digits s ≡ true → trim_0x (to_lower s) ≡ to_lower s
  unfolding all_hex_digits to_lower trim_0x
  no_prefix [] h = refl
  no_prefix (a ∷ []) h = rw (and_false (eqb (lower_byte a) 48)) refl
  no_prefix (a ∷ d ∷ s) h =
      let hex_d : is_hex_digit d ≡ true =
        (and_true (is_hex_digit d) (all_hex_digits s)
          (and_true (is_hex_digit a) (is_hex_digit d && all_hex_digits s) h).1).0 in
      rw (not_x d hex_d, and_false (eqb (lower_byte a) 48)) refl

  hex_digits : (s : Bytes) → is_hex s ≡ true → all_hex_digits s ≡ true
  unfolding is_hex
  hex_digits s h = elim (Bool-cases (not (eqb (length s % 2) 0) || eqb (length s) 0)) [
    | inl odd ↦ absurd (cc (rw (is_hex, odd) at h))
    | inr even ↦ rw (is_hex, even) at h
  ]

  prefixed : (s : Bytes) → all_hex_digits s ≡ true → normalized (codes "0x" ++ s) ≡ normalized s
  unfolding to_lower trim_0x lower_byte
  prefixed s h = sym (no_prefix s h)

  with_prefix-normalized : (s : Bytes) → normalized (with_prefix s) ≡ normalized s
  unfolding with_prefix
  with_prefix-normalized s =
      let P : Bytes → Type 0 = λ t. normalized t ≡ normalized s in
      if-elim P (s == []) _ _ (λ _. refl)
        (λ _.
          if-elim P (take 2 s == codes "0x" || take 2 s == codes "0X") _ _ (λ _. refl)
            (λ _. if-elim P (is_hex s) _ _ (λ h. prefixed s (hex_digits s h)) (λ _. refl)))

  -- The check of a batch answers the same on the root that the client sends as on the text that was
  -- typed, without the space around it.
  pub verify_merkle_root-normalise_hex :
      (items : List BatchItem) (root : Bytes)
      → verify_merkle_root items (normalise_hex root) ≡ verify_merkle_root items (trim_space root)
  unfolding verify_merkle_root normalise_hex
  verify_merkle_root-normalise_hex [] root = refl
  verify_merkle_root-normalise_hex (item ∷ items) root =
      let leaves = leaves_from 0 (item ∷ items) in
      let answer : Bytes → Outcome Error (Unit {0}) = λ text.
        elim (compute_merkle_root (length leaves) leaves) [
          | none ↦ panic
          | some r ↦ if hex_encode r == text then ok tt else err merkle_root_mismatch
        ] in
      ap answer (with_prefix-normalized (trim_space root))
