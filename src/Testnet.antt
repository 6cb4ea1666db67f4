-- ===== src/Testnet.antt =====
-- The helpers of chain/cmd/energychaind/cmd/testnet_utils.go: the powers of the validators of a test
-- network, and overrides of fields of a node's configuration.
pub mod Overrides
pub mod Powers
mod Tests
use energychain_node.Prelude.{
  ℕ, zero, suc, ◌+◌, ◌-◌, Bool, Option, none, some, List, [], ◌∷◌, Bytes, length, leb, eqb, ◌==◌,
  list_eq, ℕ_eq, if◌then◌else◌,
}
use energychain_node.Prelude.Int.{ℤ, pos, negsuc, leb_ℤ}
use energychain_node.Outcome.{Outcome, ok, err, panic, Exec, ◌>>=◌, ◌>>◌, lift, pure}

pub data PowersError : Type 0 where
  no_validators power_not_positive : PowersError

abbrev pub element : List ℤ → ℕ → Option ℤ
element [] i = none
element (x ∷ xs) zero = some x
element (x ∷ xs) (suc i) = element xs i

-- `idx`
abbrev pub power_index : List ℤ → ℕ → ℕ
power_index powers i = if leb (length powers) i then length powers - 1 else i

abbrev pub prepend : ℤ → Outcome PowersError (List ℤ) → Outcome PowersError (List ℤ)
prepend p (ok rest) = ok (p ∷ rest)
prepend p (err e) = err e
prepend p panic = panic

-- The loop from the index i on, with so many validators left; `panic` is an index out of range.
unfoldable pub powers_from : List ℤ → ℕ → ℕ → Outcome PowersError (List ℤ)
powers_from powers i zero = ok []
powers_from powers i (suc left) =
    let rest = powers_from powers (i + 1) left in
    elim (element powers (power_index powers i)) [
      | none ↦ panic
      | some p ↦ if leb_ℤ p (pos 0) then err power_not_positive else prepend p rest
    ]

abbrev pub hundreds : ℕ → List ℤ
hundreds zero = []
hundreds (suc n) = pos 100 ∷ hundreds n

-- The first two clauses are the numbers of validators that are not positive.
unfoldable pub parse_validator_powers : List ℤ → ℤ → Outcome PowersError (List ℤ)
parse_validator_powers powers (negsuc n) = err no_validators
parse_validator_powers powers (pos zero) = err no_validators
parse_validator_powers [] (pos (suc n)) = ok (hundreds (suc n))
parse_validator_powers (p ∷ ps) (pos (suc n)) = powers_from (p ∷ ps) 0 (suc n)

pub data OverrideError (E : Type 0) : Type 0 where
  invalid_format : OverrideError E
  not_set : Bytes → E → OverrideError E

abbrev pub in_field : ℕ → Option (Bytes × Bytes) → Option (Bytes × Bytes)
in_field c none = none
in_field c (some (field, value)) = some (c ∷ field, value)

-- `strings.SplitN(s, "=", 2)`, where it has two parts.
unfoldable pub split_first : Bytes → Option (Bytes × Bytes)
split_first [] = none
split_first (c ∷ s) =
    let later = in_field c (split_first s) in if eqb c b'=' then some ([], s) else later

module _ {E : Type 0} where
  unfoldable pub parse_config_override : Bytes → Outcome (OverrideError E) (Bytes × Bytes)
  parse_config_override s = elim (split_first s) [
    | none ↦ err invalid_format
    | some parts ↦ ok parts
  ]

  -- The update of a field of the configuration, by reflection, is given.
  module _ {Config : Type 0} (update_config_field : Bytes → Bytes → Exec E Config (Unit {0})) where
    unfoldable pub set_field : Bytes × Bytes → Exec (OverrideError E) Config (Unit {0})
    set_field (field, value) config =
        let (done, changed) = update_config_field field value config in
        elim done [
          | ok _ ↦ (ok tt, changed)
          | err e ↦ (err (not_set field e), changed)
          | panic ↦ (panic, changed)
        ]

    unfoldable pub apply_config_overrides : List Bytes → Exec (OverrideError E) Config (Unit {0})
    apply_config_overrides [] = pure tt
    apply_config_overrides (s ∷ rest) =
        lift (parse_config_override s) >>= λ parts. set_field parts >> apply_config_overrides rest

    -- `parseAndApplyConfigChanges`
    unfoldable pub parse_and_apply_config_changes :
        List Bytes → Exec (OverrideError E) Config (Unit {0})
    parse_and_apply_config_changes [] = pure tt
    parse_and_apply_config_changes (s ∷ rest) = apply_config_overrides (s ∷ rest)
