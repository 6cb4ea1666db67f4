-- ===== src/Energy/Consistency/Handlers.antt =====
-- The message handlers keep the store consistent, however they end, and lose nothing stored.
use energychain_node.Prelude.{
  exceeds, ℕ, suc, ◌^◌, ◌≤◌, ◌<◌, ◌≡◌, ap, ◌&&◌, inl, inr, arith, Bytes, ltb, Bool-cases,
}
use energychain_node.Outcome.{ok, Ends, Ends-bind, Ends-weaken, Ends-store, Ends-ok}
use energychain_node.Sdk.Store.{found}
use energychain_node.Sdk.Context.{Context}
use energychain_node.Energy.Types.{EnergyData, MsgSubmitEnergyData}
use energychain_node.Energy.EnergyId.{energy_id, parse_energy_id, parse_energy_id-energy_id}
use energychain_node.Energy.State.{Keeper, State}
use energychain_node.Energy.Keeper as EnergyKeeper
use energychain_node.Energy.MsgServer.{submitted_data, submit_energy_data}
use energychain_node.Energy.Consistency.{IsConsistent, Extends-refl, Progress}
use energychain_node.Energy.Consistency.Steps.{
  Kept, Stored, Issued, check_and_incr_submit_count-Kept, generate_id-Issued,
  submit_energy_data-Stored, Kept-since, Stored-since, Ends-since, emit-Stored,
}

module _ ⦃k : Keeper⦄ (n : ℕ) (s : State) where
  pub Progress-of_Kept :
      (lo hi m : ℕ) → lo ≤ m → m ≤ hi → (s' : State) → Kept m s s' → Progress lo hi s s'
  Progress-of_Kept lo hi m l u s' (c, x) = (m, l, u, c, x)

  -- A record is stored under the identifier that was issued for it.
  pub store_fresh :
      (d : EnergyData) (t : State)
      → suc n < 2 ^ 64
      → Issued n s d.id t
      → Ends (λ _. Stored (suc n) s d) (Kept (suc n) s) (EnergyKeeper.submit_energy_data d t)
  store_fresh d t l i = Ends-since (suc n) s t i.extends d (EnergyKeeper.submit_energy_data d t) (
      submit_energy_data-Stored (suc n) t i.consistent d i.fresh
        (λ m p. ground (arith, ap parse_energy_id i.issued, parse_energy_id-energy_id (suc n) l)))

module _ ⦃k : Keeper⦄ (ctx : Context) (msg : MsgSubmitEnergyData) (n : ℕ) (s : State) where
  abbrev pub Submitted : Bytes → State → Type 0
  Submitted id s' = (id ≡ energy_id (suc n)) × Stored (suc n) s (submitted_data ctx msg id) s'

  submit_energy_data-Submitted :
      IsConsistent n s
      → suc n < 2 ^ 64
      → Ends Submitted (Progress n (suc n) s) (submit_energy_data ctx msg s)
  unfolding submit_energy_data
  submit_energy_data-Submitted h l =
      let p = EnergyKeeper.get_params s in
      elim (Bool-cases (EnergyKeeper.is_allowed_submitter s msg.submitter)) [
        | inr refused ↦ rw refused (n, omega arith, omega arith, h, Extends-refl s)
        | inl allowed ↦
            elim (Bool-cases
              (ltb 0 p.max_metadata_size && exceeds msg.metadata p.max_metadata_size)) [
                | inl large ↦ rw (allowed, large) (n, omega arith, omega arith, h, Extends-refl s)
                | inr fits ↦
                    rw (allowed, fits)
                      (Ends-bind (λ _. Kept n s) (Kept n s) Submitted (Progress n (suc n) s) _ _
                        (check_and_incr_submit_count-Kept n s h msg.submitter)
                        (Progress-of_Kept n s n (suc n) n (omega arith) (omega arith))
                        (λ _ t kept.
                          Ends-bind (Issued n t) (Kept n t) Submitted (Progress n (suc n) s) _ _
                            (generate_id-Issued n t kept.0 l)
                            (λ u v.
                              Progress-of_Kept n s n (suc n) n (omega arith) (omega arith) u
                                (Kept-since n s t kept.1 u v))
                            (λ id u i.
                              Ends-bind (λ _. Stored (suc n) t (submitted_data ctx msg id))
                                (Kept (suc n) t) Submitted (Progress n (suc n) s) _ _
                                (store_fresh n t (submitted_data ctx msg id) u l i)
                                (λ v w.
                                  Progress-of_Kept n s n (suc n) (suc n) (omega arith) (omega arith)
                                    v (Kept-since (suc n) s t kept.1 v w))
                                (λ _ v w. (
                                  i.issued,
                                  emit-Stored (suc n) s (submitted_data ctx msg id) v
                                      (Stored-since (suc n) s t kept.1 (submitted_data ctx msg id) v
                                        w)
                                      _,
                                )))))
              ]
      ]

  -- From a consistent store with an identifier left, a submission ends, whether it succeeds or not,
  -- in a consistent store that has every record, batch and index entry that was stored, and the
  -- parameters, unchanged, its sequence one further at most.
  pub submit_energy_data-consistent :
      IsConsistent n s → suc n < 2 ^ 64 → Progress n (suc n) s (submit_energy_data ctx msg s).1
  submit_energy_data-consistent h l =
      Ends-store (Progress n (suc n) s) (submit_energy_data ctx msg s) (
        Ends-weaken Submitted (λ _. Progress n (suc n) s) (Progress n (suc n) s)
          (Progress n (suc n) s) _ (λ id u v. (suc n, omega arith, omega arith, v.1.0, v.1.1))
          (λ u v. v) (submit_energy_data-Submitted h l))

  -- From a consistent store with an identifier left, a submission that succeeds returns the next
  -- identifier, and exactly the submitted record stands under it.
  pub submit_energy_data-stored :
      (id : Bytes)
      → IsConsistent n s
      → suc n < 2 ^ 64
      → (submit_energy_data ctx msg s).0 ≡ ok id
      → (id ≡ energy_id (suc n))
        × (k.energy_data.get (submit_energy_data ctx msg s).1.energy_data id
            ≡ found (submitted_data ctx msg id))
  submit_energy_data-stored id h l e =
      let v =
        Ends-ok Submitted (Progress n (suc n) s) (submit_energy_data ctx msg s) id e
          (submit_energy_data-Submitted h l) in
      (v.0, v.1.2)
