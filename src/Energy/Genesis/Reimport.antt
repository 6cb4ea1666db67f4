-- ===== src/Energy/Genesis/Reimport.antt =====
-- An export of chain/x/energy that is imported again.
use energychain_node.Prelude.{
  subst, ℕ, ◌≤◌, ◌≡◌, ◌↔◌, refl, sym, ap, ◌∙◌, false, Option, none, some, List, [], ◌∷◌, map, inl,
  inr, arith, Bytes, In, In-map, In-map_intro, All, All-intro, list_eq, ℕ_eq, pair_eq,
}
use energychain_node.Outcome.{ok}
use energychain_node.Sdk.Store.{Store, found}
use energychain_node.Sdk.PutAll.{put_all, Fits, put_all-found, put_all-one_value}
use energychain_node.Energy.Types.{EnergyData, BatchSubmission}
use energychain_node.Energy.EnergyId.{parse_energy_id}
use energychain_node.Energy.State.{Keeper, State}
use energychain_node.Energy.Keeper as EnergyKeeper
use energychain_node.Energy.Invariants.{raise_to}
use energychain_node.Energy.Consistency.{IsConsistent}
use energychain_node.Energy.Genesis.{init_genesis, export_genesis, highest_data, highest_batch}
use energychain_node.Energy.Genesis.Restore.{data_id, batch_id, IsBlank, highest}
use energychain_node.Energy.Genesis.Consistent.{init_genesis-IsRestored}

-- A collection whose values stand under their own keys, and the list of its values.
module _ {V : Type 0} (store : Store Bytes V) (key : V → Bytes) (m : store.Carrier)
    (ends : store.walk_fails m ≡ false)
    (keyed : (i : Bytes) (v : V) → store.get m i ≡ found v → key v ≡ i) where
  abbrev values : List V
  values = map (λ e. e.1) (store.walk m)

  listed_values : (v : V) → In v values ↔ (store.get m (key v) ≡ found v)
  listed_values v = (
    λ i.
        let (e, there, p) = In-map (λ (x : Bytes × V). x.1) (store.walk m) v i in
        let at = store.walk_sound m e.0 e.1 there in
        subst (λ x. store.get m (key x) ≡ found x) (sym p)
          (ap (store.get m) (keyed e.0 e.1 at) ∙ at),
    λ g.
        In-map_intro (λ (x : Bytes × V). x.1) (store.walk m) (key v, v)
          (store.walk_complete m (key v) v ends g),
  )

  put_back :
      (i : Bytes) (v : V)
      → Fits store key (λ x. x) values
      → (store.get (put_all store key (λ x. x) values store.empty) i ≡ found v)
        ↔ (store.get m i ≡ found v)
  put_back i v fits = (
    λ g. elim (put_all-found store key (λ x. x) values store.empty i v fits g) [
      | inl (u, there, p, q) ↦ ap (store.get m) (sym p) ∙ (listed_values u).0 there ∙ ap found q
      | inr g' ↦ absurd (cc (g', store.get-empty i))
    ],
    λ g.
        put_all-one_value store key (λ x. x) values store.empty i v fits
          (λ u there p. cc ((listed_values u).0 there, ap (store.get m) p, g))
          (inl (v, (listed_values v).1 (ap (store.get m) (keyed i v g) ∙ g), keyed i v g)),
  )

  -- An index that is made of the values.
  index_made :
      (index : Store (Bytes × Bytes) (Unit {0})) (field : V → Bytes) (c i : Bytes)
      → Fits index (λ x. (field x, key x)) (λ _. tt) values
      → (index.get (put_all index (λ x. (field x, key x)) (λ _. tt) values index.empty) (c, i)
          ≡ found tt)
        ↔ ((v : V) × (store.get m i ≡ found v) × (field v ≡ c))
  index_made index field c i fits = (
    λ g.
        elim (put_all-found index (λ x. (field x, key x)) (λ _. tt) values index.empty (c, i) tt
          fits g) [
            | inl (v, there, p, _) ↦ (
              v,
              ap (λ (x : Bytes × Bytes). store.get m x.1) (sym p) ∙ (listed_values v).0 there,
              ap (λ (x : Bytes × Bytes). x.0) p,
            )
            | inr g' ↦ absurd (cc (g', index.get-empty (c, i)))
          ],
    λ (v, g, p).
        put_all-one_value index (λ x. (field x, key x)) (λ _. tt) values index.empty (c, i) tt fits
          (λ _ _ _. refl)
          (inl (
            v,
            (listed_values v).1 (ap (store.get m) (keyed i v g) ∙ g),
            λ j. (p j, keyed i v g j),
          )),
  )

-- Numbers that are not above the highest do not raise it.
raise_bounded : (h : ℕ) (o : Option ℕ) → ((m : ℕ) → o ≡ some m → m ≤ h) → raise_to h o ≡ h
raise_bounded h none b = refl
raise_bounded h (some m) b = ground (arith, b m refl)

highest_data_bounded :
    (h : ℕ) (ds : List EnergyData)
    → All (λ d. (m : ℕ) → parse_energy_id d.id ≡ some m → m ≤ h) ds
    → highest_data h ds ≡ h
unfolding highest_data
highest_data_bounded h [] all = refl
highest_data_bounded h (d ∷ ds) (below, all) =
    ap (λ x. highest_data x ds) (raise_bounded h (parse_energy_id d.id) below)
    ∙ highest_data_bounded h ds all

highest_batch_bounded :
    (h : ℕ) (bs : List BatchSubmission)
    → All (λ b. (m : ℕ) → parse_energy_id b.id ≡ some m → m ≤ h) bs
    → highest_batch h bs ≡ h
unfolding highest_batch
highest_batch_bounded h [] all = refl
highest_batch_bounded h (b ∷ bs) (below, all) =
    ap (λ x. highest_batch x bs) (raise_bounded h (parse_energy_id b.id) below)
    ∙ highest_batch_bounded h bs all

module _ ⦃k : Keeper⦄ where
  -- A consistent store whose batches stand under their own identifiers, and whose walks end.
  pub record IsExportable (n : ℕ) (s : State) : Type 0 where
    pub consistent : IsConsistent n s
    pub batches_keyed :
        (i : Bytes) (b : BatchSubmission) → k.batches.get s.batches i ≡ found b → b.id ≡ i
    pub data_end : k.energy_data.walk_fails s.energy_data ≡ false
    pub batches_end : k.batches.walk_fails s.batches ≡ false

  -- `s'` has the records, the batches, the parameters and the sequence of `s`, and an index entry for
  -- exactly the category and the submitter of each record.
  pub record IsCopy (n : ℕ) (s s' : State) : Type 0 where
    pub sequence : k.id_sequence.peek s'.id_sequence ≡ some n
    pub records :
        (i : Bytes) (d : EnergyData)
        → (k.energy_data.get s'.energy_data i ≡ found d)
          ↔ (k.energy_data.get s.energy_data i ≡ found d)
    pub batches :
        (i : Bytes) (b : BatchSubmission)
        → (k.batches.get s'.batches i ≡ found b) ↔ (k.batches.get s.batches i ≡ found b)
    pub categories :
        (c i : Bytes)
        → (k.by_category.get s'.by_category (c, i) ≡ found tt)
          ↔ ((d : EnergyData) × (k.energy_data.get s.energy_data i ≡ found d) × (d.category ≡ c))
    pub submitters :
        (a i : Bytes)
        → (k.by_submitter.get s'.by_submitter (a, i) ≡ found tt)
          ↔ ((d : EnergyData) × (k.energy_data.get s.energy_data i ≡ found d) × (d.submitter ≡ a))
    pub params : EnergyKeeper.get_params s' ≡ EnergyKeeper.get_params s

  module _ (n : ℕ) (s : State) (x : IsExportable n s) where
    keyed : (i : Bytes) (d : EnergyData) → k.energy_data.get s.energy_data i ≡ found d → d.id ≡ i
    keyed = x.consistent.keyed

    current : EnergyKeeper.get_current_id s ≡ n
    unfolding EnergyKeeper.get_current_id
    current = rw (EnergyKeeper.get_current_id, x.consistent.sequence) refl

    highest-export_genesis : highest (export_genesis s) ≡ n
    unfolding export_genesis EnergyKeeper.get_all_data_unbounded
        EnergyKeeper.get_all_batches_unbounded
    highest-export_genesis =
        let ds = map (λ (e : Bytes × EnergyData). e.1) (k.energy_data.walk s.energy_data) in
        let bs = map (λ (e : Bytes × BatchSubmission). e.1) (k.batches.walk s.batches) in
        let data_same : highest_data n ds ≡ n = highest_data_bounded n ds (
          All-intro (λ d. (m : ℕ) → parse_energy_id d.id ≡ some m → m ≤ n) ds
            (λ d i m p.
              x.consistent.bounded d.id d m
                ((listed_values k.energy_data data_id s.energy_data x.data_end keyed d).0 i) p)) in
        let batch_same : highest_batch n bs ≡ n = highest_batch_bounded n bs (
          All-intro (λ b. (m : ℕ) → parse_energy_id b.id ≡ some m → m ≤ n) bs
            (λ b i m p.
              x.consistent.batches_bounded b.id b m
                ((listed_values k.batches batch_id s.batches x.batches_end x.batches_keyed b).0 i)
                p)) in
        ap (λ m. highest_batch (highest_data m ds) bs) current
        ∙ ap (λ h. highest_batch h bs) data_same
        ∙ batch_same

    -- An export of a consistent store whose batches stand under their own identifiers and whose walks
    -- end without an error, imported into a store in which nothing has been written, gives, if the
    -- import succeeds, exactly the records, the batches, the parameters and the sequence that were
    -- there, and an index entry for exactly the category and the submitter of each record.
    pub init_genesis-export_genesis-IsCopy :
        (s0 : State)
        → IsBlank s0
        → (init_genesis (export_genesis s) s0).0 ≡ ok tt
        → IsCopy n s (init_genesis (export_genesis s) s0).1
    unfolding export_genesis EnergyKeeper.get_all_data_unbounded
        EnergyKeeper.get_all_batches_unbounded
    init_genesis-export_genesis-IsCopy s0 blank done =
        let gs = export_genesis s in
        let s' = (init_genesis gs s0).1 in
        let r = init_genesis-IsRestored gs s0 blank done in
        record {
          sequence = r.sequence ∙ ap some highest-export_genesis;
          records = λ i d.
              subst
                (λ m.
                  (k.energy_data.get m i ≡ found d) ↔ (k.energy_data.get s.energy_data i ≡ found d))
                (sym r.energy_data)
                (put_back k.energy_data data_id s.energy_data x.data_end keyed i d r.data_fits.0);
          batches = λ i b.
              subst (λ m. (k.batches.get m i ≡ found b) ↔ (k.batches.get s.batches i ≡ found b))
                (sym r.batches)
                (put_back k.batches batch_id s.batches x.batches_end x.batches_keyed i b
                  r.batch_fits);
          categories = λ c i.
              subst
                (λ m. (k.by_category.get m (c, i) ≡ found tt) ↔ (
                  (d : EnergyData) × (k.energy_data.get s.energy_data i ≡ found d)
                  × (d.category ≡ c)))
                (sym r.by_category)
                (index_made k.energy_data data_id s.energy_data x.data_end keyed k.by_category
                  (λ d. d.category) c i r.data_fits.1);
          submitters = λ a i.
              subst
                (λ m. (k.by_submitter.get m (a, i) ≡ found tt) ↔ (
                  (d : EnergyData) × (k.energy_data.get s.energy_data i ≡ found d)
                  × (d.submitter ≡ a)))
                (sym r.by_submitter)
                (index_made k.energy_data data_id s.energy_data x.data_end keyed k.by_submitter
                  (λ d. d.submitter) a i r.data_fits.2);
          params = r.params;
        }
