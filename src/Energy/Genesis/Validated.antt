-- ===== src/Energy/Genesis/Validated.antt =====
-- What `GenesisState.Validate` of chain/x/energy/types/genesis.go says of the identifiers, and what
-- `InitGenesis` makes the sequence of them.
use energychain_node.Prelude.{
  listed, exceeds, ℕ, ◌≤◌, ◌≡◌, ◌≢◌, sym, ap, ◌∙◌, false, Option, none, some, inl, inr, List, [],
  ◌∷◌, Bytes, All, In, ◌==◌, eq_iff, eq-cases, list_eq, ℕ_eq, Bool-cases, Option-cases, arith,
}
use energychain_node.Sdk.PutAll.{IsDistinct}
use energychain_node.Energy.Types.{EnergyData, BatchSubmission, GenesisState, validate}
use energychain_node.Energy.EnergyId.{parse_energy_id}
use energychain_node.Energy.Invariants.{raise_to}
use energychain_node.Energy.Genesis.{
  validate_records, validate_batches, validate_genesis, highest_data, highest_batch,
}

-- The identifiers, without one that has been met.
abbrev pub Apart : {A : Type 0} → (A → Bytes) → List Bytes → List A → Type 0
Apart id ids vs = All (λ v. listed (id v) ids ≡ false) vs

listed-cons :
    (a x : Bytes) (ids : List Bytes) → listed a (x ∷ ids) ≡ false → (a ≢ x) × (listed a ids ≡ false)
listed-cons a x ids h = elim (eq-cases x a) [
  | inl e ↦ absurd (cc (rw ((eq_iff x a).1 e) at h))
  | inr (other, ne) ↦ (λ p. ne (sym p), rw other at h)
]

Apart-cons :
    {A : Type 0} (id : A → Bytes) (x : Bytes) (ids : List Bytes) (vs : List A)
    → Apart id (x ∷ ids) vs
    → All (λ v. id v ≢ x) vs × Apart id ids vs
Apart-cons id x ids [] h = (tt, tt)
Apart-cons id x ids (v ∷ vs) (h, hs) =
    let (ne, l) = listed-cons (id v) x ids h in
    let (nes, ls) = Apart-cons id x ids vs hs in ((ne, nes), (l, ls))

-- One record that passes is new, and the rest passes after it.
validate_records-cons :
    (bound : ℕ) (ids : List Bytes) (d : EnergyData) (ds : List EnergyData)
    → validate_records bound ids (d ∷ ds) ≡ none
    → (listed d.id ids ≡ false) × (validate_records bound (d.id ∷ ids) ds ≡ none)
unfolding validate_records
validate_records-cons bound ids d ds h = elim (Bool-cases (d.id == [])) [
  | inl bad ↦ absurd (cc (rw (validate_records, bad) at h))
  | inr a ↦ elim (Bool-cases (listed d.id ids)) [
    | inl bad ↦ absurd (cc (rw (validate_records, a, bad) at h))
    | inr new ↦ elim (Bool-cases (d.category == [])) [
      | inl bad ↦ absurd (cc (rw (validate_records, a, new, bad) at h))
      | inr b ↦ elim (Bool-cases (d.data_hash == [])) [
        | inl bad ↦ absurd (cc (rw (validate_records, a, new, b, bad) at h))
        | inr e ↦ elim (Bool-cases (d.submitter == [])) [
          | inl bad ↦ absurd (cc (rw (validate_records, a, new, b, e, bad) at h))
          | inr f ↦ elim (Bool-cases (exceeds d.metadata bound)) [
            | inl bad ↦ absurd (cc (rw (validate_records, a, new, b, e, f, bad) at h))
            | inr g ↦ (new, rw (validate_records, a, new, b, e, f, g) at h)
          ]
        ]
      ]
    ]
  ]
]

validate_records-Apart :
    (bound : ℕ) (ids : List Bytes) (ds : List EnergyData)
    → validate_records bound ids ds ≡ none
    → IsDistinct (λ (d : EnergyData). d.id) ds × Apart (λ (d : EnergyData). d.id) ids ds
validate_records-Apart bound ids [] h = (tt, tt)
validate_records-Apart bound ids (d ∷ ds) h =
    let (new, rest) = validate_records-cons bound ids d ds h in
    let (distinct, apart) = validate_records-Apart bound (d.id ∷ ids) ds rest in
    let (nes, ls) = Apart-cons (λ (v : EnergyData). v.id) d.id ids ds apart in
    ((nes, distinct), (new, ls))

validate_batches-cons :
    (ids : List Bytes) (b : BatchSubmission) (bs : List BatchSubmission)
    → validate_batches ids (b ∷ bs) ≡ none
    → (listed b.id ids ≡ false) × (validate_batches (b.id ∷ ids) bs ≡ none)
unfolding validate_batches
validate_batches-cons ids b bs h = elim (Bool-cases (b.id == [])) [
  | inl bad ↦ absurd (cc (rw (validate_batches, bad) at h))
  | inr a ↦ elim (Bool-cases (listed b.id ids)) [
    | inl bad ↦ absurd (cc (rw (validate_batches, a, bad) at h))
    | inr new ↦ (new, rw (validate_batches, a, new) at h)
  ]
]

validate_batches-Apart :
    (ids : List Bytes) (bs : List BatchSubmission)
    → validate_batches ids bs ≡ none
    → IsDistinct (λ (b : BatchSubmission). b.id) bs × Apart (λ (b : BatchSubmission). b.id) ids bs
validate_batches-Apart ids [] h = (tt, tt)
validate_batches-Apart ids (b ∷ bs) h =
    let (new, rest) = validate_batches-cons ids b bs h in
    let (distinct, apart) = validate_batches-Apart (b.id ∷ ids) bs rest in
    let (nes, ls) = Apart-cons (λ (v : BatchSubmission). v.id) b.id ids bs apart in
    ((nes, distinct), (new, ls))

-- A valid genesis state names each record and each batch once.
pub validate_genesis-IsDistinct :
    (gs : GenesisState)
    → validate_genesis gs ≡ none
    → IsDistinct (λ (d : EnergyData). d.id) gs.data_records
      × IsDistinct (λ (b : BatchSubmission). b.id) gs.batches
unfolding validate_genesis
validate_genesis-IsDistinct gs h = elim (Option-cases (validate gs.params)) [
  | inr (e, bad) ↦ absurd (cc (rw (validate_genesis, bad) at h))
  | inl good ↦
      elim (Option-cases (validate_records gs.params.max_metadata_size [] gs.data_records)) [
        | inr (e, bad) ↦ absurd (cc (rw (validate_genesis, good, bad) at h))
        | inl records ↦
            let batches : validate_batches [] gs.batches ≡ none =
              rw (validate_genesis, good, records) at h in
            (
              (validate_records-Apart gs.params.max_metadata_size [] gs.data_records records).0,
              (validate_batches-Apart [] gs.batches batches).0,
            )
      ]
]

raise_to-ge : (n : ℕ) (o : Option ℕ) → n ≤ raise_to n o
raise_to-ge n none = omega arith
raise_to-ge n (some m) = ground arith

raise_to-some : (n m : ℕ) (o : Option ℕ) → o ≡ some m → m ≤ raise_to n o
raise_to-some n m none e = cc
raise_to-some n m (some x) e = let same : x ≡ m = cc e in ground arith

pub highest_data-ge : (n : ℕ) (ds : List EnergyData) → n ≤ highest_data n ds
unfolding highest_data
highest_data-ge n [] = omega arith
highest_data-ge n (d ∷ ds) =
    let o = parse_energy_id d.id in
    omega (arith, raise_to-ge n o, highest_data-ge (raise_to n o) ds)

-- The sequence is at or above the number in every identifier.
pub highest_data-In :
    (n : ℕ) (ds : List EnergyData) (d : EnergyData) (m : ℕ)
    → In d ds
    → parse_energy_id d.id ≡ some m
    → m ≤ highest_data n ds
unfolding highest_data
highest_data-In n [] d m i e = elim i [ ]
highest_data-In n (v ∷ ds) d m (inl p) e =
    let o = parse_energy_id v.id in
    omega (
      arith,
      raise_to-some n m o (ap (λ (x : EnergyData). parse_energy_id x.id) (sym p) ∙ e),
      highest_data-ge (raise_to n o) ds,
    )
highest_data-In n (v ∷ ds) d m (inr i) e =
    highest_data-In (raise_to n (parse_energy_id v.id)) ds d m i e

pub highest_batch-ge : (n : ℕ) (bs : List BatchSubmission) → n ≤ highest_batch n bs
unfolding highest_batch
highest_batch-ge n [] = omega arith
highest_batch-ge n (b ∷ bs) =
    let o = parse_energy_id b.id in
    omega (arith, raise_to-ge n o, highest_batch-ge (raise_to n o) bs)

pub highest_batch-In :
    (n : ℕ) (bs : List BatchSubmission) (b : BatchSubmission) (m : ℕ)
    → In b bs
    → parse_energy_id b.id ≡ some m
    → m ≤ highest_batch n bs
unfolding highest_batch
highest_batch-In n [] b m i e = elim i [ ]
highest_batch-In n (v ∷ bs) b m (inl p) e =
    let o = parse_energy_id v.id in
    omega (
      arith,
      raise_to-some n m o (ap (λ (x : BatchSubmission). parse_energy_id x.id) (sym p) ∙ e),
      highest_batch-ge (raise_to n o) bs,
    )
highest_batch-In n (v ∷ bs) b m (inr i) e =
    highest_batch-In (raise_to n (parse_energy_id v.id)) bs b m i e
