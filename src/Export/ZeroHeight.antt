-- ===== src/Export/ZeroHeight.antt =====
-- `prepForZeroHeightGenesis` of chain/export.go. `log.Fatal` ends the process, and is modelled by a
-- panic.
use energychain_node.Prelude.{
  Bool, true, false, not, ◌&&◌, none, some, List, [], ◌∷◌, map, Bytes, length, listed, ltb,
  if◌then◌else◌, list_eq, ℕ_eq, pair_eq,
}
use energychain_node.Prelude.Int.{ℤ, pos}
use energychain_node.Outcome.{
  Outcome, ok, err, panic, Exec, ◌>>=◌, ◌>>◌, pure, gets, lift, modify, some_or, or_panic,
}
use energychain_node.Sdk.Store.{found, walk_until}
use energychain_node.Export.Keepers.{
  Validator, Entry, Redelegation, UnbondingDelegation, Delegation, SigningInfo, ExportError,
  iterate_validators, all_delegations, iterate_redelegations, set_redelegation, iterate_unbonding,
  set_unbonding, validator_not_found, set_validator, iterate_signing_infos, set_signing_info,
  Stores, State, Keepers,
}
use energychain_node.Export.Reset.{reset_entries}

abbrev pub created_at_zero : Entry → Entry
created_at_zero e = record e { creation_height = pos 0 }

abbrev pub reset_redelegation : Redelegation → Redelegation
reset_redelegation red = record red { entries = map created_at_zero red.entries }

abbrev pub reset_unbonding : UnbondingDelegation → UnbondingDelegation
reset_unbonding ubd = record ubd { entries = map created_at_zero ubd.entries }

abbrev pub reset_signing_info : SigningInfo → SigningInfo
reset_signing_info info = record info { start_height = pos 0 }

module _ ⦃t : Stores⦄ where
  abbrev pub set_distribution : t.Distribution → State → State
  set_distribution d s = record s { distribution = d }

  abbrev pub on_validators :
      Exec ExportError t.validators.Carrier (Unit {0}) → Exec ExportError State (Unit {0})
  on_validators m s = let r = m s.validators in (r.0, record s { validators = r.1 })

module _ ⦃t : Stores⦄ ⦃k : Keepers⦄ where
  -- The loop over `jailAllowedAddrs`.
  unfoldable pub check_allowed : List Bytes → Outcome ExportError (Unit {0})
  check_allowed [] = ok tt
  check_allowed (a ∷ rest) = elim (k.val_address_from_bech32 a) [
    | none ↦ panic
    | some _ ↦ check_allowed rest
  ]

  -- `IterateValidators`, whose callback says whether to stop.
  abbrev pub iterate :
      (State → Bytes → Validator → State × Bool) → Exec ExportError State (Unit {0})
  iterate callback s =
      let r = walk_until callback s (t.validators.walk s.validators) in
      if t.validators.walk_fails s.validators && not r.1
      then (err iterate_validators, r.0)
      else (ok tt, r.0)

  -- The results of the withdrawals are dropped, their errors with them.
  abbrev pub withdraw_commission : ℤ → State → Bytes → Validator → State × Bool
  withdraw_commission h s _ val =
      (set_distribution (k.withdraw_validator_commission h val.operator s) s, false)

  unfoldable pub withdraw_commissions : ℤ → Exec ExportError State (Unit {0})
  withdraw_commissions h = iterate (withdraw_commission h)

  -- The two addresses of a delegation; either panics when it is malformed.
  abbrev pub val_address_of : Delegation → Outcome ExportError Bytes
  val_address_of del = elim (k.val_address_from_bech32 del.validator_address) [
    | none ↦ panic
    | some a ↦ ok a
  ]

  abbrev pub del_address_of : Delegation → Outcome ExportError Bytes
  del_address_of del = elim (k.acc_address_from_bech32 del.delegator_address) [
    | none ↦ panic
    | some a ↦ ok a
  ]

  unfoldable pub withdraw_rewards : ℤ → List Delegation → Exec ExportError State (Unit {0})
  withdraw_rewards h [] = pure tt
  withdraw_rewards h (del ∷ rest) = do
    val_addr ← lift (val_address_of del)
    del_addr ← lift (del_address_of del)
    modify (λ s. set_distribution (k.withdraw_delegation_rewards h del_addr val_addr s) s)
    withdraw_rewards h rest

  -- A hook whose error the caller panics on.
  abbrev pub hook : (State → Bool × t.Distribution) → Exec ExportError State (Unit {0})
  hook run s = let r = run s in (if r.0 then ok tt else panic, set_distribution r.1 s)

  unfoldable pub reinitialise_delegations : ℤ → List Delegation → Exec ExportError State (Unit {0})
  reinitialise_delegations h [] = pure tt
  reinitialise_delegations h (del ∷ rest) = do
    val_addr ← lift (val_address_of del)
    del_addr ← lift (del_address_of del)
    hook (k.before_delegation_created h del_addr val_addr)
    hook (k.after_delegation_modified h del_addr val_addr)
    reinitialise_delegations h rest

  -- The callback that donates what is left of a validator's rewards and runs the hook. Its `err` is
  -- its own; the address is the operator's text, converted and not decoded.
  unfoldable pub reinitialise_validator : ℤ → State → Bytes → Validator → State × Bool
  reinitialise_validator h s _ val = elim (k.outstanding_rewards s val.operator) [
    | none ↦ (s, true)
    | some scraps ↦ elim (k.community_pool s) [
      | none ↦ (s, true)
      | some pool ↦ elim (k.set_community_pool (k.add pool scraps) s) [
        | none ↦ (s, true)
        | some d ↦
            let r = k.after_validator_created h val.operator (set_distribution d s) in
            (set_distribution r.1 s, not r.0)
      ]
    ]
  ]

  unfoldable pub reinitialise_validators : ℤ → Exec ExportError State (Unit {0})
  unfolding reinitialise_validator
  reinitialise_validators h = iterate (reinitialise_validator h)

  unfoldable pub reset_redelegations : Exec ExportError State (Unit {0})
  unfolding reset_entries
  reset_redelegations s =
      let r =
        reset_entries t.redelegations (λ _. k.redelegation_key) reset_redelegation
          iterate_redelegations set_redelegation s.redelegations in
      (r.0, record s { redelegations = r.1 })

  unfoldable pub reset_unbonding_delegations : Exec ExportError State (Unit {0})
  unfolding reset_entries
  reset_unbonding_delegations s =
      let r =
        reset_entries t.unbonding_delegations (λ _. k.unbonding_key) reset_unbonding
          iterate_unbonding set_unbonding s.unbonding_delegations in
      (r.0, record s { unbonding_delegations = r.1 })

  -- A validator after the loop: it is jailed if a list is given and does not have its address.
  abbrev pub restarted : List Bytes → Bytes → Validator → Validator
  restarted allowed addr val =
      let jail = ltb 0 (length allowed) && not (listed (k.val_address_string addr) allowed) in
      record val { unbonding_height = pos 0; jailed = if jail then true else val.jailed }

  -- `SetValidator` writes under the address that it reads from the operator's text.
  unfoldable pub write_validator : Validator → Exec ExportError t.validators.Carrier (Unit {0})
  write_validator val m = elim (k.val_address_from_bech32 val.operator) [
    | none ↦ (err set_validator, m)
    | some addr ↦
        if t.validators.encodes addr val
        then (ok tt, t.validators.put m addr val)
        else (err set_validator, m)
  ]

  unfoldable pub restart_validators :
      List Bytes → List Bytes → Exec ExportError t.validators.Carrier (Unit {0})
  unfolding write_validator
  restart_validators allowed [] m = (ok tt, m)
  restart_validators allowed (addr ∷ rest) m = elim (t.validators.get m addr) [
    | found val ↦
        (write_validator (restarted allowed addr val) >> restart_validators allowed rest) m
    | _ ↦ (err validator_not_found, m)
  ]

  unfoldable pub reset_signing_infos : Exec ExportError State (Unit {0})
  unfolding reset_entries
  reset_signing_infos s =
      let r =
        reset_entries t.signing_infos (λ addr _. addr) reset_signing_info iterate_signing_infos
          set_signing_info s.signing_infos in
      (r.0, record s { signing_infos = r.1 })

  -- The fee distribution state.
  unfoldable pub restart_distribution : ℤ → List Bytes → Exec ExportError State (Unit {0})
  restart_distribution height allowed = do
    lift (check_allowed allowed)
    withdraw_commissions height
    dels ← λ s. lift (some_or all_delegations (k.all_delegations s)) s
    withdraw_rewards height dels
    reinitialise_delegations height dels
    modify (λ s. set_distribution (k.delete_all_validator_slash_events s) s)
    modify (λ s. set_distribution (k.delete_all_validator_historical_rewards s) s)
    reinitialise_validators (pos 0)

  -- The staking state, up to the update of the validator set.
  unfoldable pub restart_staking : List Bytes → Exec ExportError State (Unit {0})
  restart_staking allowed = do
    reset_redelegations
    reset_unbonding_delegations
    keys ← gets (λ s. k.validator_keys s.validators)
    on_validators (restart_validators allowed keys)

  -- After an error of `iter.Close` the function returns nil at once.
  unfoldable pub prep_for_zero_height_genesis : ℤ → List Bytes → Exec ExportError State (Unit {0})
  prep_for_zero_height_genesis height allowed = do
    restart_distribution height allowed
    restart_staking allowed
    closed ← gets k.iterator_closes
    if closed
        then (do or_panic (k.apply_validator_set_updates height); reset_signing_infos)
        else pure tt
