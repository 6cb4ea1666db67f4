-- ===== src/Energy/RateLimit/Handlers.antt =====
-- A handler counts its submission once, or not at all.
use energychain_node.Prelude.{
  exceeds, ◌%◌, ◌^◌, ◌<◌, refl, ◌&&◌, inl, inr, Bytes, ltb, length, Bool-cases,
}
use energychain_node.Outcome.{Exec, lift, ◌>>=◌, Ends, Ends-bind, Ends-of_store}
use energychain_node.Crypto.{Crypto}
use energychain_node.Sdk.Context.{Context}
use energychain_node.Energy.Types.{MsgSubmitEnergyData, MsgBatchSubmit}
use energychain_node.Energy.State.{Keeper, State, Error}
use energychain_node.Energy.Keeper as EnergyKeeper
use energychain_node.Energy.Keeper.{
  stored_count, submit_count_key, submit_count, get_params, check_and_incr_submit_count,
}
use energychain_node.Energy.Merkle.{verify_merkle_root}
use energychain_node.Energy.MsgServer.{
  submitted_data, batch_of, any_exceeds, submit_energy_data, submit_items, batch_submit,
}
use energychain_node.Energy.RateLimit.{
  Untouched, Counted, Tried, limit, Counted-then, check_and_incr_submit_count-Counted,
  generate_id-Untouched, submit_energy_data-Untouched, submit_batch-Untouched,
  submit_items-Untouched,
}

-- A handler whose counter step is followed by steps that leave the counters alone.
module _ ⦃k : Keeper⦄ {A B : Type 0} (addr : Bytes) (s : State) where
  then_Untouched :
      (m : Exec Error State A) (f : A → Exec Error State B) (t : State)
      → Counted addr s t
      → Untouched t (m t).1
      → ((a : A) (u : State) → Counted addr s u → Ends (λ _. Counted addr s) (Tried addr s) (f a u))
      → Ends (λ _. Counted addr s) (Tried addr s) ((m >>= f) t)
  then_Untouched m f t c x next =
      Ends-bind (λ _. Counted addr s) (Counted addr s) (λ _. Counted addr s) (Tried addr s) (m t) f
        (Ends-of_store (Counted addr s) (m t) (Counted-then addr s t (m t).1 c x)) (λ _ u. inr u)
        next

module _ ⦃k : Keeper⦄ (ctx : Context) (s : State) where
  Untouched-refl : Untouched s s
  Untouched-refl = record { params = refl; counts = refl }

  pub submit_energy_data-Counted :
      (msg : MsgSubmitEnergyData)
      → 0 < limit s
      → limit s < 2 ^ 32
      → Ends (λ _. Counted msg.submitter s) (Tried msg.submitter s) (submit_energy_data ctx msg s)
  unfolding submit_energy_data
  submit_energy_data-Counted msg pos fits =
      let p = get_params s in
      let a = msg.submitter in
      elim (Bool-cases (EnergyKeeper.is_allowed_submitter s a)) [
        | inr refused ↦ rw refused (inl Untouched-refl)
        | inl allowed ↦
            elim (Bool-cases
              (ltb 0 p.max_metadata_size && exceeds msg.metadata p.max_metadata_size)) [
                | inl large ↦ rw (allowed, large) (inl Untouched-refl)
                | inr small ↦
                    rw (allowed, small)
                      (Ends-bind (λ _. Counted a s) (Untouched s) (λ _. Counted a s) (Tried a s) _ _
                        (check_and_incr_submit_count-Counted a s pos fits) (λ _ u. inl u)
                        (λ _ t c.
                          then_Untouched a s EnergyKeeper.generate_id _ t c
                            (generate_id-Untouched t)
                            (λ id u c.
                              then_Untouched a s
                                (EnergyKeeper.submit_energy_data (submitted_data ctx msg id)) _ u c
                                (submit_energy_data-Untouched (submitted_data ctx msg id) u)
                                (λ _ v c.
                                  Counted-then a s v _ c
                                    (record { params = refl; counts = refl })))))
              ]
      ]

  pub batch_submit-Counted :
      ⦃c : Crypto⦄ (msg : MsgBatchSubmit)
      → 0 < limit s
      → limit s < 2 ^ 32
      → Ends (λ _. Counted msg.submitter s) (Tried msg.submitter s) (batch_submit ctx msg s)
  unfolding batch_submit
  batch_submit-Counted msg pos fits =
      let p = get_params s in
      let a = msg.submitter in
      elim (Bool-cases (EnergyKeeper.is_allowed_submitter s a)) [
        | inr refused ↦ rw refused (inl Untouched-refl)
        | inl allowed ↦ elim (Bool-cases (ltb p.max_batch_size (length msg.items % 2 ^ 32))) [
          | inl long ↦ rw (allowed, long) (inl Untouched-refl)
          | inr short ↦
              elim (Bool-cases
                (ltb 0 p.max_metadata_size && any_exceeds msg.items p.max_metadata_size)) [
                  | inl large ↦ rw (allowed, short, large) (inl Untouched-refl)
                  | inr small ↦
                      rw (allowed, short, small)
                        (Ends-bind (λ _. Counted a s) (Untouched s) (λ _. Counted a s) (Tried a s) _
                          _ (check_and_incr_submit_count-Counted a s pos fits) (λ _ u. inl u)
                          (λ _ t c.
                            then_Untouched a s (lift (verify_merkle_root msg.items msg.merkle_root))
                              _ t c (record { params = refl; counts = refl })
                              (λ _ t c.
                                then_Untouched a s EnergyKeeper.generate_id _ t c
                                  (generate_id-Untouched t)
                                  (λ id u c.
                                    then_Untouched a s (submit_items ctx msg msg.items) _ u c
                                      (submit_items-Untouched ctx msg msg.items u)
                                      (λ _ v c.
                                        then_Untouched a s
                                          (EnergyKeeper.submit_batch (batch_of ctx msg id)) _ v c
                                          (submit_batch-Untouched (batch_of ctx msg id) v)
                                          (λ _ w c.
                                            Counted-then a s w _ c
                                              (record { params = refl; counts = refl })))))))
                ]
        ]
      ]
