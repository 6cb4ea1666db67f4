-- ===== src/Energy/Governance.antt =====
-- `UpdateParams` of chain/x/energy/keeper/msg_server.go, and what it does to the metadata check of
-- chain/x/energy/keeper/invariants.go.
use energychain_node.Prelude.{
  exceeds, ap, ◌≤◌, ◌<◌, ◌≡◌, ◌≢◌, ◌↔◌, ◌⊎◌, refl, true, false, none, inl, inr, arith, Bytes, eqb,
  ◌==◌, list_eq, ℕ_eq, Bool-cases, Option-cases, eq_iff,
}
use energychain_node.Outcome.{ok}
use energychain_node.Sdk.Store.{found}
use energychain_node.Sdk.Walk.{count_fault-exact}
use energychain_node.Energy.Types.{Params, EnergyData, MsgUpdateParams, validate}
use energychain_node.Energy.State.{Keeper, State}
use energychain_node.Energy.Keeper as EnergyKeeper
use energychain_node.Energy.MsgServer.{update_params}
use energychain_node.Energy.Invariants.{metadata_within_cap_invariant}

-- The hard bounds.
pub record IsWithinBounds (p : Params) : Type 0 where
  pub batch_pos : 0 < p.max_batch_size
  pub batch_le : p.max_batch_size ≤ 10000
  pub metadata_ge : 128 ≤ p.max_metadata_size
  pub metadata_le : p.max_metadata_size ≤ 65536
  pub submissions_le : p.max_submissions_per_block_per_submitter ≤ 10000

pub validate-IsWithinBounds : (p : Params) → validate p ≡ none → IsWithinBounds p
unfolding validate
validate-IsWithinBounds p h = record {
  batch_pos = ground arith;
  batch_le = ground arith;
  metadata_ge = ground arith;
  metadata_le = ground arith;
  submissions_le = ground arith;
}

module _ ⦃k : Keeper⦄ (s : State) where
  pub record Replaced (p : Params) (s' : State) : Type 0 where
    pub params : EnergyKeeper.get_params s' ≡ p
    pub records : s'.energy_data ≡ s.energy_data
    pub counts : s'.submit_counts ≡ s.submit_counts

  set_params-cases :
      (p : Params)
      → (((EnergyKeeper.set_params p s).0 ≡ ok tt) × Replaced p (EnergyKeeper.set_params p s).1)
        ⊎ (((EnergyKeeper.set_params p s).0 ≢ ok tt) × ((EnergyKeeper.set_params p s).1 ≡ s))
  unfolding EnergyKeeper.set_params EnergyKeeper.get_params
  set_params-cases p = elim (Bool-cases (k.params.encodes tt p)) [
    | inl fits ↦ rw fits (
        inl (
          refl,
          record {
            params = rw (EnergyKeeper.get_params, k.params.get-put_self s.params tt p fits) refl;
            records = refl;
            counts = refl;
          },
        ))
    | inr bad ↦ rw bad (inr (λ h. cc, refl))
  ]

  -- The parameters are replaced by parameters within the hard bounds, on a message of the authority,
  -- or the store is as it was and the result is not a success.
  pub update_params-cases :
      (msg : MsgUpdateParams)
      → (((update_params msg s).0 ≡ ok tt)
          × (msg.authority ≡ k.authority)
          × IsWithinBounds msg.params
          × Replaced msg.params (update_params msg s).1)
        ⊎ (((update_params msg s).0 ≢ ok tt) × ((update_params msg s).1 ≡ s))
  unfolding update_params
  update_params-cases msg = elim (Bool-cases (msg.authority == k.authority)) [
    | inr other ↦ rw other (inr (λ h. cc, refl))
    | inl same ↦ elim (Option-cases (validate msg.params)) [
      | inr (e, bad) ↦ rw (same, bad) (inr (λ h. cc, refl))
      | inl good ↦
          rw (same, good)
            (elim (set_params-cases msg.params) [
              | inl (done, x) ↦ inl (
                done,
                (eq_iff msg.authority k.authority).0 same,
                validate-IsWithinBounds msg.params good,
                x,
              )
              | inr failed ↦ inr failed
            ])
    ]
  ]

  metadata_within_cap_invariant-exact :
      k.energy_data.walk_fails s.energy_data ≡ false
      → 0 < (EnergyKeeper.get_params s).max_metadata_size
      → (metadata_within_cap_invariant s ≡ false) ↔ (
          (i : Bytes) (d : EnergyData)
          → k.energy_data.get s.energy_data i ≡ found d
          → exceeds d.metadata (EnergyKeeper.get_params s).max_metadata_size ≡ false)
  unfolding metadata_within_cap_invariant
  metadata_within_cap_invariant-exact ends pos =
      let on : eqb (EnergyKeeper.get_params s).max_metadata_size 0 ≡ false = ground arith in
      rw on (
        count_fault-exact (λ _ d. exceeds d.metadata (EnergyKeeper.get_params s).max_metadata_size)
          k.energy_data s.energy_data ends)

module _ ⦃k : Keeper⦄ where
  -- A successful change of the parameters breaks the check of the metadata, if its walk ends without
  -- an error, as soon as a stored record has more metadata than the new parameters allow.
  pub update_params-breaks_metadata_cap :
      (s : State) (msg : MsgUpdateParams) (i : Bytes) (d : EnergyData)
      → (update_params msg s).0 ≡ ok tt
      → k.energy_data.walk_fails s.energy_data ≡ false
      → k.energy_data.get s.energy_data i ≡ found d
      → exceeds d.metadata msg.params.max_metadata_size ≡ true
      → metadata_within_cap_invariant (update_params msg s).1 ≡ true
  update_params-breaks_metadata_cap s msg i d done ends there large =
      let s' = (update_params msg s).1 in
      elim (update_params-cases s msg) [
        | inr (failed, _) ↦ absurd (failed done)
        | inl (_, _, bounds, x) ↦ elim (Bool-cases (metadata_within_cap_invariant s')) [
          | inl broken ↦ broken
          | inr pass ↦
              let cap_same = ap (λ p. exceeds d.metadata p.max_metadata_size) x.params in
              let ends' : k.energy_data.walk_fails s'.energy_data ≡ false = rw x.records ends in
              let there' : k.energy_data.get s'.energy_data i ≡ found d = rw x.records there in
              let pos : 0 < (EnergyKeeper.get_params s').max_metadata_size =
                rw x.params (omega (arith, bounds.metadata_ge)) in
              let small = (metadata_within_cap_invariant-exact s' ends' pos).0 pass i d there' in
              absurd (cc (small, cap_same, large))
        ]
      ]
