-- ===== src/Energy/Acceptance.antt =====
-- When `SubmitEnergyData` of chain/x/energy/keeper/msg_server.go succeeds.
use energychain_node.Prelude.{
  exceeds, ℕ, ◌+◌, ◌%◌, ◌^◌, ◌<◌, ◌≡◌, ◌⊎◌, refl, true, false, ◌&&◌, some, arith, ltb, list_eq,
  ℕ_eq,
}
use energychain_node.Outcome.{ok, continue_ok}
use energychain_node.Sdk.Context.{Context}
use energychain_node.Energy.Types.{EnergyData, MsgSubmitEnergyData}
use energychain_node.Energy.EnergyId.{energy_id}
use energychain_node.Energy.State.{Keeper, State}
use energychain_node.Energy.Keeper as EnergyKeeper
use energychain_node.Energy.MsgServer.{submit_energy_data, submitted_data}

module _ ⦃k : Keeper⦄ (ctx : Context) (msg : MsgSubmitEnergyData) (s : State) where
  -- What the handler asks of the store and of the message.
  pub record IsAdmissible : Type 0 where
    pub allowed : EnergyKeeper.is_allowed_submitter s msg.submitter ≡ true
    pub small :
        ((EnergyKeeper.get_params s).max_metadata_size ≡ 0)
        ⊎ (exceeds msg.metadata (EnergyKeeper.get_params s).max_metadata_size ≡ false)
    pub room :
        ((EnergyKeeper.get_params s).max_submissions_per_block_per_submitter ≡ 0)
        ⊎ (EnergyKeeper.submit_count s msg.submitter
            < (EnergyKeeper.get_params s).max_submissions_per_block_per_submitter)

  -- The collections can encode the record.
  pub record IsEncodable (d : EnergyData) : Type 0 where
    pub record_fits : k.energy_data.encodes d.id d ≡ true
    pub category_fits : k.by_category.encodes (d.category, d.id) tt ≡ true
    pub submitter_fits : k.by_submitter.encodes (d.submitter, d.id) tt ≡ true

  count_passes : IsAdmissible → (EnergyKeeper.check_and_incr_submit_count msg.submitter s).0 ≡ ok tt
  unfolding EnergyKeeper.check_and_incr_submit_count
  count_passes a = ground (arith, a.room)

  count_keeps :
      (EnergyKeeper.check_and_incr_submit_count msg.submitter s).1.id_sequence ≡ s.id_sequence
  unfolding EnergyKeeper.check_and_incr_submit_count
  count_keeps = ground arith

  store_passes :
      (d : EnergyData) (t : State) → IsEncodable d → (EnergyKeeper.submit_energy_data d t).0 ≡ ok tt
  unfolding EnergyKeeper.submit_energy_data
  store_passes d t e = rw (e.record_fits, e.category_fits, e.submitter_fits) refl

  issued :
      (n : ℕ) (q : k.id_sequence.Carrier)
      → k.id_sequence.next s.id_sequence ≡ some (n, q)
      → (EnergyKeeper.generate_id (EnergyKeeper.check_and_incr_submit_count msg.submitter s).1).0
        ≡ ok (energy_id ((n + 1) % 2 ^ 64))
  unfolding EnergyKeeper.generate_id
  issued n q e = rw (EnergyKeeper.generate_id, count_keeps, e) refl

  -- A submission of an allowed submitter within the limits, when the collections can encode its
  -- record, succeeds with the number after the one that the sequence issues.
  pub submit_energy_data-succeeds :
      (n : ℕ) (q : k.id_sequence.Carrier)
      → IsAdmissible
      → k.id_sequence.next s.id_sequence ≡ some (n, q)
      → IsEncodable (submitted_data ctx msg (energy_id ((n + 1) % 2 ^ 64)))
      → (submit_energy_data ctx msg s).0 ≡ ok (energy_id ((n + 1) % 2 ^ 64))
  unfolding submit_energy_data
  submit_energy_data-succeeds n q a issue e =
      let id = energy_id ((n + 1) % 2 ^ 64) in
      let p = EnergyKeeper.get_params s in
      let small : (ltb 0 p.max_metadata_size && exceeds msg.metadata p.max_metadata_size) ≡ false =
        ground (arith, a.small) in
      rw (a.allowed, small)
        (continue_ok _ _ tt id (count_passes a) (
          continue_ok _ _ id id (issued n q issue)
            (continue_ok _ _ tt id (store_passes (submitted_data ctx msg id) _ e) refl)))
