-- ===== src/Energy/Genesis/Consistent.antt =====
-- A genesis state that `Validate` accepts makes a consistent store in `InitGenesis`, both of
-- chain/x/energy.
use energychain_node.Prelude.{
  ◌≡◌, refl, sym, ap, ◌∙◌, subst, true, none, some, inl, inr, Bytes, ltb, arith, list_eq, ℕ_eq,
  pair_eq, Bool-cases, Option-cases, if◌then◌else◌,
}
use energychain_node.Outcome.{Exec, ok, ◌>>◌, continue_inv, pure}
use energychain_node.Sdk.PutAll.{put_all, put_all-found}
use energychain_node.Energy.Types.{Params, GenesisState}
use energychain_node.Energy.EnergyId.{parse_energy_id}
use energychain_node.Energy.State.{Keeper, State, Error}
use energychain_node.Energy.Keeper as EnergyKeeper
use energychain_node.Energy.Consistency.{IsConsistent}
use energychain_node.Energy.Genesis.{
  restore_data, restore_batches, init_genesis, validate_genesis, highest_data,
}
use energychain_node.Energy.Genesis.Validated.{highest_data-In, highest_batch-ge, highest_batch-In}
use energychain_node.Energy.Genesis.Restore.{
  data_id, batch_id, category_key, submitter_key, entry, with_data, with_batches,
  restore_data-writes, restore_batches-writes, IsBlank, highest, IsRestored, HasAll,
  IsRestored-HasAll, from_records,
}

module _ ⦃k : Keeper⦄ (gs : GenesisState) where
  IsRestored-IsConsistent :
      (s : State) → validate_genesis gs ≡ none → IsRestored gs s → IsConsistent (highest gs) s
  IsRestored-IsConsistent s valid r =
      let all = IsRestored-HasAll gs s valid r in
      let ds = gs.data_records in
      let top = highest_data gs.next_id ds in
      record {
        sequence = r.sequence;
        keyed = λ i d g. (from_records gs s i d r g).1;
        bounded = λ i d m g p.
            let (there, same) = from_records gs s i d r g in
            omega (
              arith,
              highest_data-In gs.next_id ds d m there (ap parse_energy_id same ∙ p),
              highest_batch-ge top gs.batches,
            );
        categories = λ c i g.
            elim (put_all-found k.by_category category_key entry ds k.by_category.empty (c, i) tt
              r.data_fits.1 (ap (λ m. k.by_category.get m (c, i)) (sym r.by_category) ∙ g)) [
                | inl (d, there, p, _) ↦ (
                  d,
                  ap (k.energy_data.get s.energy_data) (sym (ap (λ (q : Bytes × Bytes). q.1) p))
                      ∙ all.records d there,
                  ap (λ (q : Bytes × Bytes). q.0) p,
                )
                | inr bad ↦ cc (k.by_category.get-empty (c, i), bad)
              ];
        batches_bounded = λ i b m g p.
            elim (put_all-found k.batches batch_id (λ x. x) gs.batches k.batches.empty i b
              r.batch_fits (ap (λ m. k.batches.get m i) (sym r.batches) ∙ g)) [
                | inl (v, there, q, same) ↦
                    highest_batch-In top gs.batches v m there (ap parse_energy_id q ∙ p)
                | inr bad ↦ cc (k.batches.get-empty i, bad)
              ];
        submitters = λ c i g.
            elim (put_all-found k.by_submitter submitter_key entry ds k.by_submitter.empty (c, i) tt
              r.data_fits.2 (ap (λ m. k.by_submitter.get m (c, i)) (sym r.by_submitter) ∙ g)) [
                | inl (d, there, p, _) ↦ (
                  d,
                  ap (k.energy_data.get s.energy_data) (sym (ap (λ (q : Bytes × Bytes). q.1) p))
                      ∙ all.records d there,
                  ap (λ (q : Bytes × Bytes). q.0) p,
                )
                | inr bad ↦ cc (k.by_submitter.get-empty (c, i), bad)
              ];
      }

  -- The last part of `InitGenesis`.
  abbrev set_sequence : Exec Error State (Unit {0})
  set_sequence = if ltb 0 (highest gs) then EnergyKeeper.set_current_id (highest gs) else pure tt

  set_sequence-peek :
      (s : State)
      → k.id_sequence.peek s.id_sequence ≡ some 0
      → (set_sequence s).0 ≡ ok tt
      → (q : k.id_sequence.Carrier) × (k.id_sequence.peek q ≡ some (highest gs))
        × ((set_sequence s).1 ≡ record s { id_sequence = q })
  unfolding EnergyKeeper.set_current_id
  set_sequence-peek s start done = elim (Bool-cases (ltb 0 (highest gs))) [
    | inr none_seen ↦
        let zero_top : 0 ≡ highest gs = ground arith in
        (s.id_sequence, start ∙ ap some zero_top, rw none_seen refl)
    | inl seen ↦ elim (Option-cases (k.id_sequence.set s.id_sequence (highest gs))) [
      | inl bad ↦ absurd (cc (rw (seen, EnergyKeeper.set_current_id, bad) at done))
      | inr (q, set) ↦ (
        q,
        k.id_sequence.peek-set s.id_sequence (highest gs) q set,
        rw (seen, EnergyKeeper.set_current_id, set) refl,
      )
    ]
  ]

  set_params-writes :
      (s : State)
      → (EnergyKeeper.set_params gs.params s).0 ≡ ok tt
      → (k.params.encodes tt gs.params ≡ true)
        × ((EnergyKeeper.set_params gs.params s).1
            ≡ record s { params = k.params.put s.params tt gs.params })
  unfolding EnergyKeeper.set_params
  set_params-writes s done = elim (Bool-cases (k.params.encodes tt gs.params)) [
    | inr bad ↦ absurd (cc (rw bad at done))
    | inl fit ↦ (fit, rw fit refl)
  ]

  get_params-put :
      (s : State) (p : Params)
      → k.params.encodes tt p ≡ true
      → EnergyKeeper.get_params (record s { params = k.params.put s.params tt p }) ≡ p
  unfolding EnergyKeeper.get_params
  get_params-put s p fits =
      rw (EnergyKeeper.get_params, k.params.get-put_self s.params tt p fits) refl

  -- The store after each part of `InitGenesis`.
  init_genesis-parts :
      (s : State)
      → (init_genesis gs s).0 ≡ ok tt
      → let s1 = (EnergyKeeper.set_params gs.params s).1 in
        let s2 = (restore_data gs.data_records s1).1 in
        let s3 = (restore_batches gs.batches s2).1 in
        ((EnergyKeeper.set_params gs.params s).0 ≡ ok tt)
        × ((restore_data gs.data_records s1).0 ≡ ok tt)
        × ((restore_batches gs.batches s2).0 ≡ ok tt)
        × ((set_sequence s3).0 ≡ ok tt)
        × ((init_genesis gs s).1 ≡ (set_sequence s3).1)
  unfolding init_genesis
  init_genesis-parts s done =
      let s1 = (EnergyKeeper.set_params gs.params s).1 in
      let s2 = (restore_data gs.data_records s1).1 in
      let batches_on = restore_batches gs.batches >> set_sequence in
      let (_, a, rest_a, same_a) =
        continue_inv (EnergyKeeper.set_params gs.params s)
          (λ _. restore_data gs.data_records >> batches_on) tt done in
      let (_, b, rest_b, same_b) =
        continue_inv (restore_data gs.data_records s1) (λ _. batches_on) tt rest_a in
      let (_, d, rest_d, same_d) =
        continue_inv (restore_batches gs.batches s2) (λ _. set_sequence) tt rest_b in
      (a, b, d, rest_d, ap (λ r. r.1) (same_a ∙ same_b ∙ same_d))

  pub init_genesis-IsRestored :
      (s : State) → IsBlank s → (init_genesis gs s).0 ≡ ok tt → IsRestored gs (init_genesis gs s).1
  unfolding EnergyKeeper.get_params
  init_genesis-IsRestored s blank done =
      let (a, b, d, e, end) = init_genesis-parts s done in
      let (params_fit, first) = set_params-writes s a in
      let (data_fits, second) = restore_data-writes gs.data_records _ b in
      let (batch_fits, third) = restore_batches-writes gs.batches _ d in
      let ds = gs.data_records in
      let bs = gs.batches in
      let t =
        with_batches bs (with_data ds (record s { params = k.params.put s.params tt gs.params })) in
      let all =
        third ∙ ap (with_batches bs) second ∙ ap (λ u. with_batches bs (with_data ds u)) first in
      let ends : (set_sequence t).0 ≡ ok tt = ap (λ u. (set_sequence u).0) (sym all) ∙ e in
      let (q, peek, wrote) = set_sequence-peek t blank.sequence ends in
      let final : (init_genesis gs s).1 ≡ record t { id_sequence = q } =
        end ∙ ap (λ u. (set_sequence u).1) all ∙ wrote in
      subst (IsRestored gs) (sym final) (record {
        data_fits = data_fits;
        batch_fits = batch_fits;
        sequence = peek;
        energy_data = ap (put_all k.energy_data data_id (λ d. d) ds) blank.energy_data;
        by_category = ap (put_all k.by_category category_key entry ds) blank.by_category;
        by_submitter = ap (put_all k.by_submitter submitter_key entry ds) blank.by_submitter;
        batches = ap (put_all k.batches batch_id (λ b. b) bs) blank.batches;
        params = get_params-put s gs.params params_fit;
      })

  -- From a store in which nothing has been written, a genesis state that is valid and whose import
  -- succeeds gives a consistent store, its sequence at the highest number in an identifier or the
  -- recorded one, in which every record and every batch stands under its identifier, with the
  -- parameters of the genesis state.
  pub init_genesis-IsConsistent :
      (s : State)
      → IsBlank s
      → validate_genesis gs ≡ none
      → (init_genesis gs s).0 ≡ ok tt
      → IsConsistent (highest gs) (init_genesis gs s).1 × HasAll gs (init_genesis gs s).1
  init_genesis-IsConsistent s blank valid done =
      let r = init_genesis-IsRestored s blank done in
      (
        IsRestored-IsConsistent (init_genesis gs s).1 valid r,
        IsRestored-HasAll gs (init_genesis gs s).1 valid r,
      )
