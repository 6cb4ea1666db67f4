-- ===== src/Upgrades/Idempotent.antt =====
-- What `bumpEnergyMetadataCap` of chain/upgrades/v1_0_1/upgrade.go does to the parameters, and which
-- store loader `RegisterUpgradeHandlers` of chain/upgrades.go installs.
use energychain_node.Prelude.{
  max, ◌≡◌, refl, sym, ap, ◌∙◌, subst, true, false, none, arith, inl, inr, leb, Bool-cases,
}
use energychain_node.Outcome.{ok}
use energychain_node.Energy.Types.{Params, validate}
use energychain_node.Energy.State.{Keeper, State}
use energychain_node.Energy.Keeper.{get_params, set_params}
use energychain_node.Energy.Governance.{IsWithinBounds}
use energychain_node.Upgrades.MetadataCap.{new_cap, raised, bump_energy_metadata_cap}

pub raised-IsWithinBounds : (p : Params) → IsWithinBounds p → IsWithinBounds (raised p)
raised-IsWithinBounds p h = record {
  batch_pos = h.batch_pos;
  batch_le = h.batch_le;
  metadata_ge = omega arith;
  metadata_le = omega arith;
  submissions_le = h.submissions_le;
}

pub IsWithinBounds-validate : (p : Params) → IsWithinBounds p → validate p ≡ none
unfolding validate
IsWithinBounds-validate p h =
    ground (arith, h.batch_pos, h.batch_le, h.metadata_ge, h.metadata_le, h.submissions_le)

module _ ⦃k : Keeper⦄ where
  -- What the migration may change, and a second run of it.
  pub record IsBumped (s s' : State) : Type 0 where
    pub cap :
        get_params s'
        ≡ record (get_params s) { max_metadata_size = max (get_params s).max_metadata_size new_cap }
    pub rest : s' ≡ record s { params = s'.params }
    pub bounds : IsWithinBounds (get_params s')
    pub again : bump_energy_metadata_cap s' ≡ (ok tt, s')

  large_enough :
      (s : State)
      → leb new_cap (get_params s).max_metadata_size ≡ true
      → bump_energy_metadata_cap s ≡ (ok tt, s)
  unfolding bump_energy_metadata_cap
  large_enough s e = rw e refl

  too_small :
      (s : State)
      → IsWithinBounds (get_params s)
      → k.params.encodes tt (raised (get_params s)) ≡ true
      → leb new_cap (get_params s).max_metadata_size ≡ false
      → bump_energy_metadata_cap s
        ≡ (ok tt, record s { params = k.params.put s.params tt (raised (get_params s)) })
  unfolding bump_energy_metadata_cap set_params
  too_small s h fits e =
      let good =
        IsWithinBounds-validate (raised (get_params s)) (raised-IsWithinBounds (get_params s) h) in
      rw (e, good, fits) refl

  get_params-put :
      (s : State) (p : Params)
      → k.params.encodes tt p ≡ true
      → get_params (record s { params = k.params.put s.params tt p }) ≡ p
  unfolding get_params
  get_params-put s p fits = rw (get_params, k.params.get-put_self s.params tt p fits) refl

  -- On parameters within the hard bounds, whose change the store can encode, the migration returns
  -- without an error; the metadata cap is then the larger of the old one and 8192, every other
  -- parameter and everything else in the store is as it was, the parameters are within the hard
  -- bounds still, and a second run changes nothing.
  pub bump_energy_metadata_cap-IsBumped :
      (s : State)
      → IsWithinBounds (get_params s)
      → k.params.encodes tt (raised (get_params s)) ≡ true
      → ((bump_energy_metadata_cap s).0 ≡ ok tt) × IsBumped s (bump_energy_metadata_cap s).1
  bump_energy_metadata_cap-IsBumped s h fits =
      let p = get_params s in
      elim (Bool-cases (leb new_cap p.max_metadata_size)) [
        | inl large ↦
            let m : p.max_metadata_size ≡ max p.max_metadata_size new_cap = ground arith in
            let same = large_enough s large in
            rw same (
              refl,
              record {
                cap = ap (λ n. record p { max_metadata_size = n }) m;
                rest = refl;
                bounds = h;
                again = same;
              },
            )
        | inr small ↦
            let s' : State = record s { params = k.params.put s.params tt (raised p) } in
            let m : new_cap ≡ max p.max_metadata_size new_cap = ground arith in
            let now = get_params-put s (raised p) fits in
            let large : leb new_cap (get_params s').max_metadata_size ≡ true = rw now refl in
            rw (too_small s h fits small) (
              refl,
              record {
                cap = now ∙ ap (λ n. record p { max_metadata_size = n }) m;
                rest = refl;
                bounds = subst IsWithinBounds (sym now) (raised-IsWithinBounds p h);
                again = large_enough s' large;
              },
            )
      ]
