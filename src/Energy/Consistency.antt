-- ===== src/Energy/Consistency.antt =====
-- The invariants of the energy store as statements: identifiers stay below the sequence, records
-- stand under their own identifier, and every entry of an index has its record.
pub mod Steps
pub mod Handlers
pub mod Items
pub mod Batch
use energychain_node.Prelude.{
  ℕ, suc, ◌+◌, ◌%◌, ◌^◌, ◌≤◌, ◌<◌, ◌≡◌, ◌≢◌, refl, sym, ap, ◌∙◌, Bool, true, false, Option, none,
  some, inl, inr, arith, Bytes, eq_iff, ◌==◌, list_eq, ℕ_eq, pair_eq, eq-cases,
}
use energychain_node.Outcome.{Ends, Ends-bind, Ends-save, Ends-weaken}
use energychain_node.Sdk.Store.{Lookup, found}
use energychain_node.Sdk.Laws.{get-put}
use energychain_node.Energy.Types.{EnergyData, BatchSubmission}
use energychain_node.Energy.EnergyId.{energy_id, parse_energy_id, parse_energy_id-energy_id}
use energychain_node.Energy.State.{
  Keeper, State, store_energy_data, index_by_category, index_by_submitter,
}
use energychain_node.Energy.Keeper as EnergyKeeper

module _ ⦃k : Keeper⦄ where
  -- `n` is the value of the sequence.
  pub record IsConsistent (n : ℕ) (s : State) : Type 0 where
    pub sequence : k.id_sequence.peek s.id_sequence ≡ some n
    pub keyed :
        (i : Bytes) (d : EnergyData) → k.energy_data.get s.energy_data i ≡ found d → d.id ≡ i
    pub bounded :
        (i : Bytes) (d : EnergyData) (m : ℕ)
        → k.energy_data.get s.energy_data i ≡ found d
        → parse_energy_id i ≡ some m
        → m ≤ n
    pub categories :
        (c i : Bytes)
        → k.by_category.get s.by_category (c, i) ≡ found tt
        → (d : EnergyData) × (k.energy_data.get s.energy_data i ≡ found d) × (d.category ≡ c)
    pub batches_bounded :
        (i : Bytes) (b : BatchSubmission) (m : ℕ)
        → k.batches.get s.batches i ≡ found b
        → parse_energy_id i ≡ some m
        → m ≤ n
    pub submitters :
        (a i : Bytes)
        → k.by_submitter.get s.by_submitter (a, i) ≡ found tt
        → (d : EnergyData) × (k.energy_data.get s.energy_data i ≡ found d) × (d.submitter ≡ a)

  -- The records, the batches and the entries of the two indexes that were stored are still stored,
  -- unchanged, and so are the parameters.
  pub record Extends (s s' : State) : Type 0 where
    pub data_kept :
        (i : Bytes) (d : EnergyData)
        → k.energy_data.get s.energy_data i ≡ found d
        → k.energy_data.get s'.energy_data i ≡ found d
    pub batches_kept :
        (i : Bytes) (b : BatchSubmission)
        → k.batches.get s.batches i ≡ found b
        → k.batches.get s'.batches i ≡ found b
    pub categories_kept :
        (p : Bytes × Bytes)
        → k.by_category.get s.by_category p ≡ found tt
        → k.by_category.get s'.by_category p ≡ found tt
    pub submitters_kept :
        (p : Bytes × Bytes)
        → k.by_submitter.get s.by_submitter p ≡ found tt
        → k.by_submitter.get s'.by_submitter p ≡ found tt
    pub params_kept : s'.params ≡ s.params

  pub Extends-refl : (s : State) → Extends s s
  Extends-refl s = record {
    data_kept = λ i d g. g;
    batches_kept = λ i b g. g;
    categories_kept = λ p g. g;
    submitters_kept = λ p g. g;
    params_kept = refl;
  }

  pub Extends-trans : {s t u : State} → Extends s t → Extends t u → Extends s u
  Extends-trans p q = record {
    data_kept = λ i d g. q.data_kept i d (p.data_kept i d g);
    batches_kept = λ i b g. q.batches_kept i b (p.batches_kept i b g);
    categories_kept = λ i g. q.categories_kept i (p.categories_kept i g);
    submitters_kept = λ i g. q.submitters_kept i (p.submitters_kept i g);
    params_kept = q.params_kept ∙ p.params_kept;
  }

  -- A consistent store that grew out of `s`, with its sequence from `lo` to `hi`.
  abbrev pub Progress : ℕ → ℕ → State → State → Type 0
  Progress lo hi s s' = (m : ℕ) × (lo ≤ m) × (m ≤ hi) × IsConsistent m s' × Extends s s'

  -- No record stands under `i`.
  abbrev pub IsFresh : Bytes → State → Type 0
  IsFresh i s = (d : EnergyData) → k.energy_data.get s.energy_data i ≢ found d

  module _ (n : ℕ) (s : State) (h : IsConsistent n s) (d : EnergyData) where
    -- A record under a new identifier leaves the others as they are.
    pub kept :
        k.energy_data.encodes d.id d ≡ true
        → IsFresh d.id s
        → (i : Bytes) (e : EnergyData) → k.energy_data.get s.energy_data i ≡ found e
        → k.energy_data.get (k.energy_data.put s.energy_data d.id d) i ≡ found e
    kept c fresh i e g =
        k.energy_data.get-put_ne s.energy_data d.id d i c
          (λ p. fresh e (ap (k.energy_data.get s.energy_data) p ∙ g))
        ∙ g

    pub put_data-IsConsistent :
        k.energy_data.encodes d.id d ≡ true
        → IsFresh d.id s
        → ((m : ℕ) → parse_energy_id d.id ≡ some m → m ≤ n)
        → IsConsistent n (record s { energy_data = k.energy_data.put s.energy_data d.id d })
    put_data-IsConsistent c fresh below = record {
      sequence = h.sequence;
      batches_bounded = h.batches_bounded;
      keyed = λ i e g.
          ground
            (arith, get-put k.energy_data s.energy_data d.id d i c, eq_iff d.id i, h.keyed i e);
      bounded = λ i e m g p. ground (
        arith,
        get-put k.energy_data s.energy_data d.id d i c,
        eq_iff d.id i,
        h.bounded i e m,
        below m,
      );
      categories =
          λ a i g. let (e, there, same) = h.categories a i g in (e, kept c fresh i e there, same);
      submitters =
          λ a i g. let (e, there, same) = h.submitters a i g in (e, kept c fresh i e there, same);
    }

  module _ (n : ℕ) (s : State) (h : IsConsistent n s) (d : EnergyData)
      (there : k.energy_data.get s.energy_data d.id ≡ found d) where
    pub put_category-IsConsistent :
        k.by_category.encodes (d.category, d.id) tt ≡ true
        → IsConsistent n
            (record s { by_category = k.by_category.put s.by_category (d.category, d.id) tt })
    put_category-IsConsistent e = record {
      sequence = h.sequence;
      keyed = h.keyed;
      batches_bounded = h.batches_bounded;
      bounded = h.bounded;
      submitters = h.submitters;
      categories = λ c i g. elim (eq-cases {A = Bytes × Bytes} (d.category, d.id) (c, i)) [
        | inl p ↦ (
          d,
          ap (λ (q : Bytes × Bytes). k.energy_data.get s.energy_data q.1) (sym p) ∙ there,
          ap (λ (q : Bytes × Bytes). q.0) p,
        )
        | inr (other, _) ↦
            h.categories c i
              (rw (get-put k.by_category s.by_category (d.category, d.id) tt (c, i) e, other) at g)
      ];
    }

    pub put_submitter-IsConsistent :
        k.by_submitter.encodes (d.submitter, d.id) tt ≡ true
        → IsConsistent n
            (record s { by_submitter = k.by_submitter.put s.by_submitter (d.submitter, d.id) tt })
    put_submitter-IsConsistent e = record {
      sequence = h.sequence;
      keyed = h.keyed;
      batches_bounded = h.batches_bounded;
      bounded = h.bounded;
      categories = h.categories;
      submitters = λ c i g. elim (eq-cases {A = Bytes × Bytes} (d.submitter, d.id) (c, i)) [
        | inl p ↦ (
          d,
          ap (λ (q : Bytes × Bytes). k.energy_data.get s.energy_data q.1) (sym p) ∙ there,
          ap (λ (q : Bytes × Bytes). q.0) p,
        )
        | inr (other, _) ↦
            h.submitters c i (
              rw (get-put k.by_submitter s.by_submitter (d.submitter, d.id) tt (c, i) e, other) at
                g)
      ];
    }
