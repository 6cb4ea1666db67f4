-- ===== src/Export/Zeroed.antt =====
-- What `prepForZeroHeightGenesis` (chain/export.go) makes of the stores of the staking and slashing
-- modules.
use energychain_node.Prelude.{
  ◌≡◌, refl, sym, ap, ◌∙◌, ◌⊎◌, subst, inl, inr, Bool, true, false, List, Bytes, Bool-cases,
  if◌then◌else◌, list_eq, ℕ_eq,
}
use energychain_node.Prelude.Int.{ℤ}
use energychain_node.Outcome.{
  Outcome, ok, err, panic, Exec, continue_inv, ◌>>◌, pure, or_panic, panic_on_err,
}
use energychain_node.Export.Keepers.{
  ExportError, iterate_redelegations, set_redelegation, iterate_unbonding, set_unbonding,
  iterate_signing_infos, set_signing_info, Stores, State, Keepers,
}
use energychain_node.Export.Reset.{IsKeyed, reset_entries-maps}
use energychain_node.Export.ZeroHeight.{
  set_distribution, reset_redelegation, reset_unbonding, reset_signing_info, restarted,
  reset_redelegations, reset_unbonding_delegations, reset_signing_infos, restart_distribution,
  restart_staking, prep_for_zero_height_genesis,
}
use energychain_node.Export.Restart.{
  Related, Related-map_lookup, IsRedelegationAtZero, IsUnbondingAtZero, IsValidatorAtZero,
  StartsAtZero, restarted_lem, reset_redelegation_lem, reset_unbonding_lem,
}
use energychain_node.Export.Frame.{Framed, restart_distribution-Framed}
use energychain_node.Export.Maps.{IsOperated, restart_validators-maps}

module _ ⦃t : Stores⦄ ⦃k : Keepers⦄ where
  -- Every record stands under the key under which its keeper writes it.
  pub record IsIndexed (s : State) : Type 0 where
    pub validators : IsOperated s.validators
    pub redelegations :
        IsKeyed t.redelegations (λ _. k.redelegation_key) reset_redelegation s.redelegations
    pub unbonding_delegations :
        IsKeyed t.unbonding_delegations
          (λ _. k.unbonding_key)
          reset_unbonding
          s.unbonding_delegations

  -- The staking stores have what they had, started again at height 0.
  pub record IsRestarted (allowed : List Bytes) (s u : State) : Type 0 where
    pub validators :
        (a : Bytes)
        → Related
            (IsValidatorAtZero allowed a)
            (t.validators.get s.validators a)
            (t.validators.get u.validators a)
    pub redelegations :
        (a : Bytes)
        → Related IsRedelegationAtZero
            (t.redelegations.get s.redelegations a)
            (t.redelegations.get u.redelegations a)
    pub unbonding_delegations :
        (a : Bytes)
        → Related IsUnbondingAtZero
            (t.unbonding_delegations.get s.unbonding_delegations a)
            (t.unbonding_delegations.get u.unbonding_delegations a)
    pub signing_infos : u.signing_infos ≡ s.signing_infos

  restart_staking-IsRestarted :
      (allowed : List Bytes) (s : State)
      → IsIndexed s
      → (restart_staking allowed s).0 ≡ ok tt
      → IsRestarted allowed s (restart_staking allowed s).1
  unfolding restart_staking reset_redelegations reset_unbonding_delegations
  restart_staking-IsRestarted allowed s h done =
      let (_, first, rest, same) = continue_inv (reset_redelegations s) _ tt done in
      let s' = (reset_redelegations s).1 in
      let (_, second, last, same') = continue_inv (reset_unbonding_delegations s') _ tt rest in
      subst (λ (r : Outcome ExportError (Unit {0}) × State). IsRestarted allowed s r.1)
        (sym (same ∙ same'))
        (record {
          validators = λ a.
              Related-map_lookup (IsValidatorAtZero allowed a) (restarted allowed a) _ _
                (restarted_lem allowed a)
                (restart_validators-maps allowed s.validators h.validators last a);
          redelegations = λ a.
              Related-map_lookup IsRedelegationAtZero reset_redelegation _ _ reset_redelegation_lem
                (reset_entries-maps t.redelegations (λ _. k.redelegation_key) reset_redelegation
                  iterate_redelegations set_redelegation s.redelegations h.redelegations first a);
          unbonding_delegations = λ a.
              Related-map_lookup IsUnbondingAtZero reset_unbonding _ _ reset_unbonding_lem (
                reset_entries-maps t.unbonding_delegations (λ _. k.unbonding_key) reset_unbonding
                  iterate_unbonding set_unbonding s.unbonding_delegations h.unbonding_delegations
                  second a);
          signing_infos = refl;
        })

  from_frame :
      (allowed : List Bytes) (s u : State)
      → Framed s u
      → ((v : State)
          → IsIndexed v
          → (restart_staking allowed v).0 ≡ ok tt
          → IsRestarted allowed v (restart_staking allowed v).1)
      → IsIndexed s
      → (restart_staking allowed u).0 ≡ ok tt
      → IsRestarted allowed s (restart_staking allowed u).1
  from_frame allowed s u (d, p) restarts h done =
      let v = set_distribution d s in
      let x =
        restarts v
          (record {
            validators = h.validators;
            redelegations = h.redelegations;
            unbonding_delegations = h.unbonding_delegations;
          })
          (subst (λ y. (restart_staking allowed y).0 ≡ ok tt) p done) in
      subst (λ y. IsRestarted allowed s (restart_staking allowed y).1) (sym p)
        (record {
          validators = x.validators;
          redelegations = x.redelegations;
          unbonding_delegations = x.unbonding_delegations;
          signing_infos = x.signing_infos;
        })

  -- How the function ends after the staking stores are restarted: at once, if the iterator does not
  -- close, or with the validator set updated and every signing info starting at 0.
  abbrev pub Finishes : ℤ → State → State → Type 0
  Finishes height u final =
      ((k.iterator_closes u ≡ false) × (final ≡ u))
      ⊎ ((v : State) × (k.iterator_closes u ≡ true)
          × (k.apply_validator_set_updates height u ≡ (ok tt, v))
          × (final ≡ record v { signing_infos = final.signing_infos })
          × ((a : Bytes)
              → Related StartsAtZero (t.signing_infos.get v.signing_infos a)
                  (t.signing_infos.get final.signing_infos a)))

  no_panic :
      (r : Outcome ExportError (Unit {0}) × State) → panic_on_err r.0 ≡ ok tt → r ≡ (ok tt, r.1)
  no_panic (ok tt, s) h = refl
  no_panic (err e, s) h = cc
  no_panic (panic, s) h = cc

  abbrev finish : ℤ → Bool → Exec ExportError State (Unit {0})
  finish height closed =
      if closed
      then (or_panic (k.apply_validator_set_updates height) >> reset_signing_infos)
      else pure tt

  finish-Finishes :
      (height : ℤ) (u : State)
      → (finish height (k.iterator_closes u) u).0 ≡ ok tt
      → Finishes height u (finish height (k.iterator_closes u) u).1
  unfolding reset_signing_infos
  finish-Finishes height u done = elim (Bool-cases (k.iterator_closes u)) [
    | inr open_still ↦ rw open_still (inl (refl, refl))
    | inl closed ↦
        let (_, first, last, same) =
          continue_inv (or_panic (k.apply_validator_set_updates height) u)
            (λ _. reset_signing_infos) tt (rw closed at done) in
        let r = k.apply_validator_set_updates height u in
        let runs : finish height (k.iterator_closes u) u ≡ reset_signing_infos r.1 =
          ap (λ b. finish height b u) closed ∙ same in
        (subst (λ (x : Outcome ExportError (Unit {0}) × State). Finishes height u x.1) (sym runs)
          (inr (
            r.1,
            closed,
            no_panic r first,
            refl,
            λ a.
                Related-map_lookup StartsAtZero reset_signing_info _ _ (λ _. (refl, refl))
                  (reset_entries-maps t.signing_infos (λ addr _. addr) reset_signing_info
                    iterate_signing_infos set_signing_info r.1.signing_infos (λ _ _ _. refl) last
                    a),
          )))
  ]

  -- A preparation that succeeds, on stores whose records stand under their own keys, restarts the
  -- staking stores, jailing exactly the validators that a list which is not empty does not name, and
  -- then ends at once, if the iterator does not close, or updates the validator set and starts every
  -- signing info at 0.
  pub prep_for_zero_height_genesis-IsRestarted :
      (height : ℤ) (allowed : List Bytes) (s : State)
      → IsIndexed s
      → (prep_for_zero_height_genesis height allowed s).0 ≡ ok tt
      → (u : State) × IsRestarted allowed s u
        × Finishes height u (prep_for_zero_height_genesis height allowed s).1
  unfolding prep_for_zero_height_genesis
  prep_for_zero_height_genesis-IsRestarted height allowed s h done =
      let (_, _, rest, same) = continue_inv (restart_distribution height allowed s) _ tt done in
      let s' = (restart_distribution height allowed s).1 in
      let (_, staked, last, same') = continue_inv (restart_staking allowed s') _ tt rest in
      let u = (restart_staking allowed s').1 in
      (
        u,
        from_frame allowed s s' (restart_distribution-Framed height allowed s)
            (restart_staking-IsRestarted allowed) h staked,
        subst (λ (r : Outcome ExportError (Unit {0}) × State). Finishes height u r.1)
            (sym (same ∙ same')) (finish-Finishes height u last),
      )
