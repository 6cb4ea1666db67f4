-- ===== src/Audit/Governance.antt =====
-- `UpdateParams` of chain/x/audit/keeper/msg_server.go: the parameters are replaced, or nothing is.
use energychain_node.Prelude.{
  ◌≡◌, ◌≢◌, ◌⊎◌, refl, inl, inr, ◌==◌, list_eq, ℕ_eq, Bool-cases, Option-cases,
}
use energychain_node.Outcome.{ok}
use energychain_node.Audit.Types.{Params, MsgUpdateParams, validate}
use energychain_node.Audit.State.{Keeper, State}
use energychain_node.Audit.Keeper as AuditKeeper
use energychain_node.Audit.MsgServer.{update_params}

module _ ⦃k : Keeper⦄ (s : State) where
  pub record Replaced (p : Params) (s' : State) : Type 0 where
    pub params : AuditKeeper.get_params s' ≡ p
    pub counts : s'.audit_counts ≡ s.audit_counts

  set_params-Replaced :
      (p : Params)
      → (((AuditKeeper.set_params p s).0 ≡ ok tt) × Replaced p (AuditKeeper.set_params p s).1)
        ⊎ (((AuditKeeper.set_params p s).0 ≢ ok tt) × ((AuditKeeper.set_params p s).1 ≡ s))
  unfolding AuditKeeper.set_params AuditKeeper.get_params
  set_params-Replaced p = elim (Bool-cases (k.params.encodes tt p)) [
    | inl fits ↦ rw fits (
        inl (
          refl,
          record {
            params = rw (AuditKeeper.get_params, k.params.get-put_self s.params tt p fits) refl;
            counts = refl;
          },
        ))
    | inr bad ↦ rw bad (inr (λ h. cc, refl))
  ]

  -- The parameters are replaced, or the store is as it was and the result is not a success.
  pub update_params-Replaced :
      (msg : MsgUpdateParams)
      → (((update_params msg s).0 ≡ ok tt) × Replaced msg.params (update_params msg s).1)
        ⊎ (((update_params msg s).0 ≢ ok tt) × ((update_params msg s).1 ≡ s))
  unfolding update_params
  update_params-Replaced msg = elim (Bool-cases (msg.authority == k.authority)) [
    | inr other ↦ rw other (inr (λ h. cc, refl))
    | inl same ↦ elim (Option-cases (validate msg.params)) [
      | inr (e, bad) ↦ rw (same, bad) (inr (λ h. cc, refl))
      | inl good ↦ rw (same, good) (set_params-Replaced msg.params)
    ]
  ]
