-- ===== src/Energy/Invariants.antt =====
-- The checks of chain/x/energy/keeper/invariants.go that the crisis module runs. Each returns
-- whether the invariant is broken; the message with the first entries at fault is left out.
pub mod Index
use energychain_node.Prelude.{
  exceeds, ℕ, ◌+◌, Bool, true, false, not, ◌&&◌, ◌||◌, Option, none, some, List, [], ◌∷◌, Bytes,
  ltb, leb, eqb, ◌==◌, list_eq, ℕ_eq, if◌then◌else◌,
}
use energychain_node.Sdk.Store.{walk_until}
use energychain_node.Sdk.Walk.{verdict, count_fault}
use energychain_node.Energy.Types.{EnergyData}
use energychain_node.Energy.EnergyId.{parse_energy_id}
use energychain_node.Energy.State.{Keeper, State}
use energychain_node.Energy.Keeper as EnergyKeeper

abbrev pub raise_to : ℕ → Option ℕ → ℕ
raise_to highest none = highest
raise_to highest (some n) = if ltb highest n then n else highest

-- The highest number in the identifiers of the records.
unfoldable pub max_seen : ℕ → List (Bytes × EnergyData) → ℕ
max_seen highest [] = highest
max_seen highest ((i, d) ∷ rest) = max_seen (raise_to highest (parse_energy_id d.id)) rest

module _ ⦃k : Keeper⦄ where
  unfoldable pub id_sequence_monotonic_invariant : State → Bool
  id_sequence_monotonic_invariant s = elim (k.id_sequence.peek s.id_sequence) [
    | none ↦ true
    | some seq ↦
        if k.energy_data.walk_fails s.energy_data
        then true
        else ltb seq (max_seen 0 (k.energy_data.walk s.energy_data))
  ]

  -- The callback of the two walks over an index, on the number of dangling entries: `field` is the
  -- field of the record that the index is by. A missing record returns before the count is tested.
  abbrev pub check_entry : (EnergyData → Bytes) → State → ℕ → Bytes × Bytes → Unit {0} → ℕ × Bool
  check_entry field s dangling key _ = elim (EnergyKeeper.get_energy_data s key.1) [
    | none ↦ (dangling + 1, false)
    | some d ↦
        let count = if field d == key.0 then dangling else dangling + 1 in (count, leb 10 count)
  ]

  unfoldable pub by_category_consistency_invariant : State → Bool
  by_category_consistency_invariant s =
      verdict (k.by_category.walk_fails s.by_category)
        (walk_until (check_entry (λ d. d.category) s) 0 (k.by_category.walk s.by_category))

  unfoldable pub by_submitter_consistency_invariant : State → Bool
  by_submitter_consistency_invariant s =
      verdict (k.by_submitter.walk_fails s.by_submitter)
        (walk_until (check_entry (λ d. d.submitter) s) 0 (k.by_submitter.walk s.by_submitter))

  unfoldable pub metadata_within_cap_invariant : State → Bool
  metadata_within_cap_invariant s =
      let cap = (EnergyKeeper.get_params s).max_metadata_size in
      if eqb cap 0
      then false
      else verdict (k.energy_data.walk_fails s.energy_data) (
          walk_until (count_fault (λ _ d. exceeds d.metadata cap)) 0
            (k.energy_data.walk s.energy_data))

  -- `AllInvariants` stops at the first that is broken.
  unfoldable pub all_invariants : State → Bool
  all_invariants s =
      id_sequence_monotonic_invariant s
      || by_category_consistency_invariant s
      || by_submitter_consistency_invariant s
      || metadata_within_cap_invariant s
