-- ===== src/Energy/Consistency/Steps.antt =====
-- What each method of the keeper does to a consistent store.
use energychain_node.Prelude.{
  ℕ, suc, ◌+◌, ◌%◌, ◌^◌, ◌≤◌, ◌<◌, ◌≡◌, ◌≢◌, refl, ap, ◌∙◌, some, List, inl, inr, arith, Bytes,
  list_eq, ℕ_eq, pair_eq, Option-cases, Bool-cases, eqb, leb,
}
use energychain_node.Outcome.{Outcome, ◌>>◌, Ends, Ends-weaken}
use energychain_node.Sdk.Store.{found}
use energychain_node.Sdk.Laws.{get-put_entry}
use energychain_node.Sdk.Context.{Event}
use energychain_node.Energy.Types.{EnergyData, BatchSubmission}
use energychain_node.Energy.EnergyId.{energy_id, parse_energy_id, parse_energy_id-energy_id}
use energychain_node.Energy.State.{Keeper, State, Error}
use energychain_node.Energy.Keeper as EnergyKeeper
use energychain_node.Energy.Consistency.{
  IsConsistent, Extends, Extends-refl, Extends-trans, IsFresh, kept, put_data-IsConsistent,
  put_category-IsConsistent, put_submitter-IsConsistent,
}

-- What a method leaves behind when it began at `s`, the sequence being `n` in the end.
module _ ⦃k : Keeper⦄ (n : ℕ) (s : State) where
  abbrev pub Kept : State → Type 0
  Kept s' = IsConsistent n s' × Extends s s'

  -- `d` stands under its identifier, and all else as before.
  abbrev pub Stored : EnergyData → State → Type 0
  Stored d s' = IsConsistent n s' × Extends s s' × (k.energy_data.get s'.energy_data d.id ≡ found d)

  -- `GenerateID` has returned `i`.
  pub record Issued (i : Bytes) (s' : State) : Type 0 where
    pub issued : i ≡ energy_id (suc n)
    pub consistent : IsConsistent (suc n) s'
    pub fresh : IsFresh i s'
    pub fresh_batch : (b : BatchSubmission) → k.batches.get s'.batches i ≢ found b
    pub extends : Extends s s'

module _ ⦃k : Keeper⦄ (n : ℕ) (s : State) (h : IsConsistent n s) where
  -- The methods that touch neither records nor indexes.
  IsConsistent-counts : (m : k.transient.Carrier) → IsConsistent n (record s { submit_counts = m })
  IsConsistent-counts m = record {
    sequence = h.sequence;
    keyed = h.keyed;
    bounded = h.bounded;
    categories = h.categories;
    batches_bounded = h.batches_bounded;
    submitters = h.submitters;
  }

  pub Kept-refl : Kept n s s
  Kept-refl = (h, Extends-refl s)

  pub check_and_incr_submit_count-Kept :
      (addr : Bytes)
      → Ends (λ _. Kept n s) (Kept n s) (EnergyKeeper.check_and_incr_submit_count addr s)
  unfolding EnergyKeeper.check_and_incr_submit_count
  check_and_incr_submit_count-Kept addr =
      let limit = (EnergyKeeper.get_params s).max_submissions_per_block_per_submitter in
      elim (Bool-cases (eqb limit 0)) [
        | inl off ↦ rw off Kept-refl
        | inr on ↦ elim (Bool-cases (leb limit (EnergyKeeper.submit_count s addr))) [
          | inl full ↦ rw (on, full) Kept-refl
          | inr room ↦
              rw (on, room)
                (
                  IsConsistent-counts _,
                  record {
                    data_kept = λ i d g. g;
                    batches_kept = λ i b g. g;
                    categories_kept = λ p g. g;
                    submitters_kept = λ p g. g;
                    params_kept = refl;
                  },
                )
        ]
      ]

  -- The identifier that comes next names neither a record nor a batch.
  next_id-IsFresh : suc n < 2 ^ 64 → IsFresh (energy_id (suc n)) s
  next_id-IsFresh l d g =
      omega (arith, h.bounded (energy_id (suc n)) d (suc n) g (parse_energy_id-energy_id (suc n) l))

  issue :
      suc n < 2 ^ 64
      → (q : k.id_sequence.Carrier) → k.id_sequence.peek q ≡ some (suc n)
      → Issued n s (energy_id (suc n)) (record s { id_sequence = q })
  issue l q e = record {
    issued = refl;
    consistent = record {
      sequence = e;
      keyed = h.keyed;
      bounded = λ i d m g p. omega (arith, h.bounded i d m g p);
      categories = h.categories;
      batches_bounded = λ i d m g p. omega (arith, h.batches_bounded i d m g p);
      submitters = h.submitters;
    };
    fresh = next_id-IsFresh l;
    fresh_batch = λ b g. omega (
      arith,
      h.batches_bounded (energy_id (suc n)) b (suc n) g (parse_energy_id-energy_id (suc n) l),
    );
    extends = record {
      data_kept = λ i d g. g;
      batches_kept = λ i b g. g;
      categories_kept = λ p g. g;
      submitters_kept = λ p g. g;
      params_kept = refl;
    };
  }

  pub generate_id-Issued :
      suc n < 2 ^ 64 → Ends (Issued n s) (Kept n s) (EnergyKeeper.generate_id s)
  unfolding EnergyKeeper.generate_id
  generate_id-Issued l = elim (Option-cases (k.id_sequence.next s.id_sequence)) [
    | inl stuck ↦ rw (stuck, EnergyKeeper.generate_id) Kept-refl
    | inr ((seq, q), e) ↦
        let p = k.id_sequence.peek-next s.id_sequence seq q e in
        let same : seq ≡ n = ground (arith, h.sequence, p.0) in
        let id_same : (seq + 1) % 2 ^ 64 ≡ suc n = omega arith in
        rw (e, EnergyKeeper.generate_id) (rw id_same (issue l q (p.1 ∙ ap some id_same)))
  ]

  save_submitter-Stored :
      (d : EnergyData)
      → k.energy_data.get s.energy_data d.id ≡ found d
      → Ends (λ _. Stored n s d) (Kept n s) (EnergyKeeper.save_submitter d s)
  save_submitter-Stored d there =
      elim (Bool-cases (k.by_submitter.encodes (d.submitter, d.id) tt)) [
        | inr bad ↦ rw bad Kept-refl
        | inl good ↦ rw good (
          put_submitter-IsConsistent n s h d there good,
          record {
            data_kept = λ i e g. g;
            batches_kept = λ i b g. g;
            categories_kept = λ p g. g;
            submitters_kept =
                λ p g. get-put_entry k.by_submitter s.by_submitter (d.submitter, d.id) p good g;
            params_kept = refl;
          },
          there,
        )
      ]

-- Events are no part of what is stored.
module _ ⦃k : Keeper⦄ (n : ℕ) (s : State) where
  pub emit-Kept :
      (s' : State) → Kept n s s' → (e : List Event) → Kept n s (record s' { events = e })
  emit-Kept s' (c, x) e = (
    record {
      sequence = c.sequence;
      keyed = c.keyed;
      bounded = c.bounded;
      categories = c.categories;
      batches_bounded = c.batches_bounded;
      submitters = c.submitters;
    },
    record {
      data_kept = x.data_kept;
      batches_kept = x.batches_kept;
      categories_kept = x.categories_kept;
      submitters_kept = x.submitters_kept;
      params_kept = x.params_kept;
    },
  )

  pub emit-Stored :
      (d : EnergyData) (s' : State)
      → Stored n s d s'
      → (e : List Event) → Stored n s d (record s' { events = e })
  emit-Stored d s' (c, x, there) e = let (c', x') = emit-Kept s' (c, x) e in (c', x', there)

-- What holds relative to a later store holds relative to an earlier one.
module _ ⦃k : Keeper⦄ (n : ℕ) (s t : State) (x : Extends s t) where
  pub Kept-since : (u : State) → Kept n t u → Kept n s u
  Kept-since u (v, y) = (v, Extends-trans x y)

  pub Stored-since : (d : EnergyData) (u : State) → Stored n t d u → Stored n s d u
  Stored-since d u (v, y, there) = (v, Extends-trans x y, there)

  pub Ends-since :
      (d : EnergyData) (r : Outcome Error (Unit {0}) × State)
      → Ends (λ _. Stored n t d) (Kept n t) r
      → Ends (λ _. Stored n s d) (Kept n s) r
  Ends-since d r =
      Ends-weaken (λ _. Stored n t d) (λ _. Stored n s d) (Kept n t) (Kept n s) r
        (λ _. Stored-since d) Kept-since

module _ ⦃k : Keeper⦄ (n : ℕ) (s : State) (h : IsConsistent n s) (d : EnergyData) where
  save_indexes-Stored :
      k.energy_data.get s.energy_data d.id ≡ found d
      → Ends
          (λ _. Stored n s d)
          (Kept n s)
          ((EnergyKeeper.save_category d >> EnergyKeeper.save_submitter d) s)
  save_indexes-Stored there = elim (Bool-cases (k.by_category.encodes (d.category, d.id) tt)) [
    | inr bad ↦ rw bad (Kept-refl n s h)
    | inl good ↦
        let t = record s { by_category = k.by_category.put s.by_category (d.category, d.id) tt } in
        let x : Extends s t = record {
          data_kept = λ i e g. g;
          batches_kept = λ i b g. g;
          categories_kept =
              λ p g. get-put_entry k.by_category s.by_category (d.category, d.id) p good g;
          submitters_kept = λ p g. g;
          params_kept = refl;
        } in
        rw good (
          Ends-since n s t x d (EnergyKeeper.save_submitter d t)
            (save_submitter-Stored n t (put_category-IsConsistent n s h d there good) d there))
  ]

module _ ⦃k : Keeper⦄ (n : ℕ) (s : State) (h : IsConsistent n s) (d : EnergyData) where
  -- A record under a new identifier is stored, with its two index entries.
  pub submit_energy_data-Stored :
      IsFresh d.id s
      → ((m : ℕ) → parse_energy_id d.id ≡ some m → m ≤ n)
      → Ends (λ _. Stored n s d) (Kept n s) (EnergyKeeper.submit_energy_data d s)
  unfolding EnergyKeeper.submit_energy_data
  submit_energy_data-Stored fresh below = elim (Bool-cases (k.energy_data.encodes d.id d)) [
    | inr bad ↦ rw bad (Kept-refl n s h)
    | inl good ↦
        let t = record s { energy_data = k.energy_data.put s.energy_data d.id d } in
        let x : Extends s t = record {
          data_kept = kept n s h d good fresh;
          batches_kept = λ i b g. g;
          categories_kept = λ p g. g;
          submitters_kept = λ p g. g;
          params_kept = refl;
        } in
        rw good (
          Ends-since n s t x d ((EnergyKeeper.save_category d >> EnergyKeeper.save_submitter d) t) (
            save_indexes-Stored n t (put_data-IsConsistent n s h d good fresh below) d
              (k.energy_data.get-put_self s.energy_data d.id d good)))
  ]
