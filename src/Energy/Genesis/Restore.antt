-- ===== src/Energy/Genesis/Restore.antt =====
-- `InitGenesis` of chain/x/energy/keeper/keeper.go restores a consistent store.
use energychain_node.Prelude.{
  ℕ, ◌≡◌, refl, sym, ap, ◌∙◌, subst, true, none, some, inl, inr, List, [], ◌∷◌, Bytes, In, list_eq,
  ℕ_eq, pair_eq, Bool-cases,
}
use energychain_node.Outcome.{ok, continue_inv}
use energychain_node.Sdk.Store.{found}
use energychain_node.Sdk.PutAll.{put_all, Fits, put_all-found, put_all-In}
use energychain_node.Energy.Types.{EnergyData, BatchSubmission, GenesisState}
use energychain_node.Energy.State.{Keeper, State}
use energychain_node.Energy.Keeper as EnergyKeeper
use energychain_node.Energy.Genesis.{
  restore_data, restore_batches, validate_genesis, highest_data, highest_batch,
}
use energychain_node.Energy.Genesis.Validated.{validate_genesis-IsDistinct}

-- The keys and the values of the collections.
abbrev pub data_id : EnergyData → Bytes
data_id d = d.id

abbrev pub batch_id : BatchSubmission → Bytes
batch_id b = b.id

abbrev pub category_key : EnergyData → Bytes × Bytes
category_key d = (d.category, d.id)

abbrev pub submitter_key : EnergyData → Bytes × Bytes
submitter_key d = (d.submitter, d.id)

abbrev pub entry : EnergyData → Unit {0}
entry d = tt

module _ ⦃k : Keeper⦄ where
  abbrev pub DataFits : List EnergyData → Type 0
  DataFits ds =
      Fits k.energy_data data_id (λ d. d) ds
      × Fits k.by_category category_key entry ds
      × Fits k.by_submitter submitter_key entry ds

  abbrev pub with_data : List EnergyData → State → State
  with_data ds s = record s {
    energy_data = put_all k.energy_data data_id (λ d. d) ds s.energy_data;
    by_category = put_all k.by_category category_key entry ds s.by_category;
    by_submitter = put_all k.by_submitter submitter_key entry ds s.by_submitter;
  }

  abbrev pub with_batches : List BatchSubmission → State → State
  with_batches bs s = record s { batches = put_all k.batches batch_id (λ b. b) bs s.batches }

  submit_energy_data-writes :
      (d : EnergyData) (s : State)
      → (EnergyKeeper.submit_energy_data d s).0 ≡ ok tt
      → (k.energy_data.encodes d.id d ≡ true)
        × (k.by_category.encodes (d.category, d.id) tt ≡ true)
        × (k.by_submitter.encodes (d.submitter, d.id) tt ≡ true)
        × ((EnergyKeeper.submit_energy_data d s).1 ≡ with_data (d ∷ []) s)
  unfolding EnergyKeeper.submit_energy_data
  submit_energy_data-writes d s done = elim (Bool-cases (k.energy_data.encodes d.id d)) [
    | inr bad ↦ absurd (cc (rw bad at done))
    | inl a ↦ elim (Bool-cases (k.by_category.encodes (d.category, d.id) tt)) [
      | inr bad ↦ absurd (cc (rw (a, bad) at done))
      | inl b ↦ elim (Bool-cases (k.by_submitter.encodes (d.submitter, d.id) tt)) [
        | inr bad ↦ absurd (cc (rw (a, b, bad) at done))
        | inl e ↦ (a, b, e, rw (a, b, e) refl)
      ]
    ]
  ]

  pub restore_data-writes :
      (ds : List EnergyData) (s : State)
      → (restore_data ds s).0 ≡ ok tt
      → DataFits ds × ((restore_data ds s).1 ≡ with_data ds s)
  unfolding restore_data
  restore_data-writes [] s done = ((tt, tt, tt), refl)
  restore_data-writes (d ∷ ds) s done =
      let (_, first, rest, same) =
        continue_inv (EnergyKeeper.submit_energy_data d s) (λ _. restore_data ds) tt done in
      let (a, b, e, wrote) = submit_energy_data-writes d s first in
      let ((fa, fb, fe), all) =
        restore_data-writes ds (EnergyKeeper.submit_energy_data d s).1 rest in
      (((a, fa), (b, fb), (e, fe)), ap (λ r. r.1) same ∙ all ∙ ap (with_data ds) wrote)

  pub restore_batches-writes :
      (bs : List BatchSubmission) (s : State)
      → (restore_batches bs s).0 ≡ ok tt
      → Fits k.batches batch_id (λ b. b) bs × ((restore_batches bs s).1 ≡ with_batches bs s)
  unfolding restore_batches EnergyKeeper.submit_batch
  restore_batches-writes [] s done = (tt, refl)
  restore_batches-writes (b ∷ bs) s done = elim (Bool-cases (k.batches.encodes b.id b)) [
    | inr bad ↦ absurd (cc (rw bad at done))
    | inl fit ↦
        let s1 = with_batches (b ∷ []) s in
        let (fits, all) = restore_batches-writes bs s1 (rw fit at done) in ((fit, fits), rw fit all)
  ]

  -- A store in which nothing has been written, as at the first block.
  pub record IsBlank (s : State) : Type 0 where
    pub sequence : k.id_sequence.peek s.id_sequence ≡ some 0
    pub energy_data : s.energy_data ≡ k.energy_data.empty
    pub by_category : s.by_category ≡ k.by_category.empty
    pub by_submitter : s.by_submitter ≡ k.by_submitter.empty
    pub batches : s.batches ≡ k.batches.empty

  -- The sequence that the genesis state calls for.
  abbrev pub highest : GenesisState → ℕ
  highest gs = highest_batch (highest_data gs.next_id gs.data_records) gs.batches

  -- What the restored store is, whatever else is in it.
  pub record IsRestored (gs : GenesisState) (s : State) : Type 0 where
    pub data_fits : DataFits gs.data_records
    pub batch_fits : Fits k.batches batch_id (λ b. b) gs.batches
    pub sequence : k.id_sequence.peek s.id_sequence ≡ some (highest gs)
    pub energy_data :
        s.energy_data ≡ put_all k.energy_data data_id (λ d. d) gs.data_records k.energy_data.empty
    pub by_category :
        s.by_category ≡ put_all k.by_category category_key entry gs.data_records k.by_category.empty
    pub by_submitter :
        s.by_submitter
        ≡ put_all k.by_submitter submitter_key entry gs.data_records k.by_submitter.empty
    pub batches : s.batches ≡ put_all k.batches batch_id (λ b. b) gs.batches k.batches.empty
    pub params : EnergyKeeper.get_params s ≡ gs.params

  -- Every record and every batch of the genesis state stands under its identifier.
  pub record HasAll (gs : GenesisState) (s : State) : Type 0 where
    pub records :
        (d : EnergyData) → In d gs.data_records → k.energy_data.get s.energy_data d.id ≡ found d
    pub batches : (b : BatchSubmission) → In b gs.batches → k.batches.get s.batches b.id ≡ found b
    pub params : EnergyKeeper.get_params s ≡ gs.params

  pub IsRestored-HasAll :
      (gs : GenesisState) (s : State) → validate_genesis gs ≡ none → IsRestored gs s → HasAll gs s
  IsRestored-HasAll gs s valid r =
      let (one_record, one_batch) = validate_genesis-IsDistinct gs valid in
      record {
        records = λ d i.
            ap (λ m. k.energy_data.get m d.id) r.energy_data
            ∙ put_all-In k.energy_data data_id (λ x. x) gs.data_records k.energy_data.empty d
                r.data_fits.0 one_record i;
        batches = λ b i.
            ap (λ m. k.batches.get m b.id) r.batches
            ∙ put_all-In k.batches batch_id (λ x. x) gs.batches k.batches.empty b r.batch_fits
                one_batch i;
        params = r.params;
      }

  -- What is found in the restored store comes from the genesis state.
  pub from_records :
      (gs : GenesisState) (s : State) (i : Bytes) (d : EnergyData)
      → IsRestored gs s
      → k.energy_data.get s.energy_data i ≡ found d
      → In d gs.data_records × (d.id ≡ i)
  from_records gs s i d r g =
      elim (put_all-found k.energy_data data_id (λ x. x) gs.data_records k.energy_data.empty i d
        r.data_fits.0 (ap (λ m. k.energy_data.get m i) (sym r.energy_data) ∙ g)) [
          | inl (v, m, p, q) ↦ (subst (λ x. In x gs.data_records) q m, ap data_id (sym q) ∙ p)
          | inr bad ↦ cc (k.energy_data.get-empty i, bad)
        ]
