-- ===== src/Energy/Invariants/Index.antt =====
-- The checks say what they are for: they pass on exactly the stores whose identifiers stay below
-- the sequence and whose index entries have their records.
use energychain_node.Prelude.{
  ℕ, ◌≤◌, ◌≡◌, ◌↔◌, false, some, List, [], ◌∷◌, inl, inr, arith, Bytes, All, All-In, All-intro, leb,
  eq_iff, list_eq, ℕ_eq, Option-cases,
}
use energychain_node.Sdk.Store.{Store, found, walk_until}
use energychain_node.Sdk.Walk.{verdict, verdict-exact}
use energychain_node.Sdk.Laws.{Lookup-cases}
use energychain_node.Energy.Types.{EnergyData}
use energychain_node.Energy.EnergyId.{parse_energy_id}
use energychain_node.Energy.State.{Keeper, State}
use energychain_node.Energy.Keeper as EnergyKeeper
use energychain_node.Energy.Invariants.{
  raise_to, max_seen, check_entry, id_sequence_monotonic_invariant,
  by_category_consistency_invariant, by_submitter_consistency_invariant,
}

-- The loop over the identifiers.
max_seen-le : (n h : ℕ) (l : List (Bytes × EnergyData)) → max_seen h l ≤ n → h ≤ n
unfolding max_seen
max_seen-le n h [] le = le
max_seen-le n h ((i, d) ∷ l) le =
    ground (arith, max_seen-le n (raise_to h (parse_energy_id d.id)) l le)

abbrev AllBelow : ℕ → List (Bytes × EnergyData) → Type 0
AllBelow n = All (λ e. (m : ℕ) → parse_energy_id e.1.id ≡ some m → m ≤ n)

max_seen_sound : (n h : ℕ) (l : List (Bytes × EnergyData)) → max_seen h l ≤ n → AllBelow n l
unfolding max_seen
max_seen_sound n h [] le = tt
max_seen_sound n h ((i, d) ∷ l) le = (
  λ m p. ground (arith, max_seen-le n (raise_to h (parse_energy_id d.id)) l le),
  max_seen_sound n (raise_to h (parse_energy_id d.id)) l le,
)

max_seen_complete :
    (n h : ℕ) (l : List (Bytes × EnergyData)) → h ≤ n → AllBelow n l → max_seen h l ≤ n
unfolding max_seen
max_seen_complete n h [] le all = le
max_seen_complete n h ((i, d) ∷ l) le (below, all) =
    max_seen_complete n (raise_to h (parse_energy_id d.id)) l
      (elim (Option-cases (parse_energy_id d.id)) [
        | inl e ↦ rw e le
        | inr (m, e) ↦ rw e (ground (arith, below m e))
      ])
      all

module _ ⦃k : Keeper⦄ (field : EnergyData → Bytes) (s : State) where
  -- An entry of the index has its record.
  abbrev pub HasRecord : Bytes × Bytes → Type 0
  HasRecord key =
      (d : EnergyData) × (k.energy_data.get s.energy_data key.1 ≡ found d) × (field d ≡ key.0)

  check_entry-HasRecord :
      (c : ℕ) (key : Bytes × Bytes) → HasRecord key → check_entry field s c key tt ≡ (c, leb 10 c)
  unfolding EnergyKeeper.get_energy_data
  check_entry-HasRecord c key (d, there, same) = ground (arith, eq_iff (field d) key.0)

  check_entry-le : (c : ℕ) (key : Bytes × Bytes) → c ≤ (check_entry field s c key tt).0
  unfolding EnergyKeeper.get_energy_data
  check_entry-le c key = ground arith

  check_entry_zero : (key : Bytes × Bytes) → (check_entry field s 0 key tt).0 ≡ 0 → HasRecord key
  unfolding EnergyKeeper.get_energy_data
  check_entry_zero key e = elim (Lookup-cases (k.energy_data.get s.energy_data key.1)) [
    | inl (d, there) ↦ (d, there, ground (arith, eq_iff (field d) key.0))
    | inr (inl missing) ↦ absurd (ground arith)
    | inr (inr bad) ↦ absurd (ground arith)
  ]

  check_entry-exact :
      (st : Store (Bytes × Bytes) (Unit {0})) (m : st.Carrier)
      → st.walk_fails m ≡ false
      → (verdict (st.walk_fails m) (walk_until (check_entry field s) 0 (st.walk m)) ≡ false)
        ↔ ((key : Bytes × Bytes) (u : Unit {0}) → st.get m key ≡ found u → HasRecord key)
  check_entry-exact =
      verdict-exact (check_entry field s) (λ key _. HasRecord key) (λ n key _. check_entry-le n key)
        (λ key _ h. check_entry-HasRecord 0 key h) (λ key _ e. check_entry_zero key e)

module _ ⦃k : Keeper⦄ (s : State) where
  -- What the checks are for, as statements.
  abbrev pub IdsBelowSequence : Type 0
  IdsBelowSequence =
      (n : ℕ) × (k.id_sequence.peek s.id_sequence ≡ some n)
      × ((i : Bytes) (d : EnergyData) (m : ℕ)
          → k.energy_data.get s.energy_data i ≡ found d
          → parse_energy_id d.id ≡ some m
          → m ≤ n)

  abbrev pub CategoriesHaveRecords : Type 0
  CategoriesHaveRecords =
      (key : Bytes × Bytes)
      → k.by_category.get s.by_category key ≡ found tt
      → HasRecord (λ d. d.category) s key

  abbrev pub SubmittersHaveRecords : Type 0
  SubmittersHaveRecords =
      (key : Bytes × Bytes)
      → k.by_submitter.get s.by_submitter key ≡ found tt
      → HasRecord (λ d. d.submitter) s key

  -- On a store whose walk of the index by category ends without an error, its check passes exactly
  -- if each of its entries has a record of that category.
  pub by_category_consistency_invariant-exact :
      k.by_category.walk_fails s.by_category ≡ false
      → (by_category_consistency_invariant s ≡ false) ↔ CategoriesHaveRecords
  unfolding by_category_consistency_invariant
  by_category_consistency_invariant-exact ends =
      let (sound, complete) =
        check_entry-exact (λ d. d.category) s k.by_category s.by_category ends in
      (λ pass key g. sound pass key tt g, λ all. complete (λ key u g. all key g))

  -- On a store whose walk of the index by submitter ends without an error, its check passes exactly
  -- if each of its entries has a record of that submitter.
  pub by_submitter_consistency_invariant-exact :
      k.by_submitter.walk_fails s.by_submitter ≡ false
      → (by_submitter_consistency_invariant s ≡ false) ↔ SubmittersHaveRecords
  unfolding by_submitter_consistency_invariant
  by_submitter_consistency_invariant-exact ends =
      let (sound, complete) =
        check_entry-exact (λ d. d.submitter) s k.by_submitter s.by_submitter ends in
      (λ pass key g. sound pass key tt g, λ all. complete (λ key u g. all key g))

  -- On a store whose walk of the records ends without an error, the check of the sequence passes
  -- exactly if the sequence can be read and no number in an identifier of a record is above it.
  pub id_sequence_monotonic_invariant-exact :
      k.energy_data.walk_fails s.energy_data ≡ false
      → (id_sequence_monotonic_invariant s ≡ false) ↔ IdsBelowSequence
  unfolding id_sequence_monotonic_invariant
  id_sequence_monotonic_invariant-exact ends = (
    λ pass. elim (Option-cases (k.id_sequence.peek s.id_sequence)) [
      | inl none_there ↦ absurd (ground arith)
      | inr (n, there) ↦ (
        n,
        there,
        λ i d m g p.
            All-In (λ e. (m : ℕ) → parse_energy_id e.1.id ≡ some m → m ≤ n)
              (k.energy_data.walk s.energy_data)
              (max_seen_sound n 0 (k.energy_data.walk s.energy_data) (ground arith)) (i, d)
              (k.energy_data.walk_complete s.energy_data i d ends g) m p,
      )
    ],
    λ (n, there, below).
        let le = max_seen_complete n 0 (k.energy_data.walk s.energy_data) (omega arith) (
          All-intro (λ e. (m : ℕ) → parse_energy_id e.1.id ≡ some m → m ≤ n)
            (k.energy_data.walk s.energy_data)
            (λ e m j p. below e.0 e.1 j (k.energy_data.walk_sound s.energy_data e.0 e.1 m) p)) in
        ground arith,
  )
