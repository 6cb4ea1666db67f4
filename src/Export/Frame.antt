-- ===== src/Export/Frame.antt =====
-- The first part of `prepForZeroHeightGenesis` (chain/export.go) changes what the distribution module
-- keeps, and nothing else.
use energychain_node.Prelude.{
  ◌≡◌, refl, ap, ◌∙◌, inl, inr, List, [], ◌∷◌, Bytes, Bool, Bool-cases, Option-cases, if-elim, not,
  ◌&&◌,
}
use energychain_node.Prelude.Int.{ℤ, pos}
use energychain_node.Outcome.{
  Outcome, ok, err, panic, Exec, ◌>>=◌, ◌>>◌, continue, lift, modify, some_or,
}
use energychain_node.Sdk.Store.{walk_until}
use energychain_node.Export.Keepers.{
  Validator, Delegation, ExportError, all_delegations, Stores, State, Keepers,
}
use energychain_node.Export.ZeroHeight.{
  set_distribution, check_allowed, iterate, withdraw_commission, withdraw_commissions,
  val_address_of, del_address_of, withdraw_rewards, hook, reinitialise_delegations,
  reinitialise_validator, reinitialise_validators, restart_distribution,
}

module _ ⦃t : Stores⦄ where
  -- The state is as it was, but for the part of the distribution module.
  abbrev pub Framed : State → State → Type 0
  Framed s u = (d : t.Distribution) × (u ≡ set_distribution d s)

  Framed-refl : (s : State) → Framed s s
  Framed-refl s = (s.distribution, refl)

  Framed-trans : (s u v : State) → Framed s u → Framed u v → Framed s v
  Framed-trans s u v (d, p) (d', q) = (d', q ∙ ap (set_distribution d') p)

  abbrev pub Frames : {A : Type 0} → Exec ExportError State A → Type 0
  Frames m = (s : State) → Framed s (m s).1

  module _ {A B : Type 0} where
    continue-Framed :
        (r : Outcome ExportError A × State) (f : A → Exec ExportError State B) (s : State)
        → Framed s r.1
        → ((a : A) → Frames (f a))
        → Framed s (continue r.0 f r.1).1
    continue-Framed (ok a, u) f s h next = Framed-trans s u (f a u).1 h (next a u)
    continue-Framed (err e, u) f s h next = h
    continue-Framed (panic, u) f s h next = h

    >>=-Frames :
        (m : Exec ExportError State A) (f : A → Exec ExportError State B)
        → Frames m
        → ((a : A) → Frames (f a))
        → Frames (m >>= f)
    >>=-Frames m f h next s = continue-Framed (m s) f s (h s) next

  distribution_set :
      {A : Type 0} (f : State → t.Distribution) (m : Exec ExportError State A)
      → Frames m
      → Frames (λ s. m (set_distribution (f s) s))
  distribution_set f m h s =
      let u = set_distribution (f s) s in Framed-trans s u (m u).1 (f s, refl) (h u)

  walk-Framed :
      (callback : State → Bytes → Validator → State × Bool)
      → ((s : State) (a : Bytes) (v : Validator) → Framed s (callback s a v).0)
      → (l : List (Bytes × Validator)) (s : State) → Framed s (walk_until callback s l).0
  walk-Framed callback h [] s = Framed-refl s
  walk-Framed callback h ((a, v) ∷ l) s =
      let r = callback s a v in
      elim (Bool-cases r.1) [
        | inl stop ↦ rw stop (h s a v)
        | inr goes ↦ rw goes (
            Framed-trans s r.0 (walk_until callback r.0 l).0 (h s a v)
              (walk-Framed callback h l r.0))
      ]

module _ ⦃t : Stores⦄ ⦃k : Keepers⦄ where
  iterate-Framed :
      (callback : State → Bytes → Validator → State × Bool)
      → ((s : State) (a : Bytes) (v : Validator) → Framed s (callback s a v).0)
      → Frames (iterate callback)
  iterate-Framed callback h s =
      let l = t.validators.walk s.validators in
      let r = walk_until callback s l in
      if-elim (λ (x : Outcome ExportError (Unit {0}) × State). Framed s x.1)
        (t.validators.walk_fails s.validators && not r.1) _ _ (λ _. walk-Framed callback h l s)
        (λ _. walk-Framed callback h l s)

  each_delegation :
      (del : Delegation) (f : Bytes → Bytes → Exec ExportError State (Unit {0}))
      → ((a b : Bytes) → Frames (f a b))
      → Frames (do
        val_addr ← λ s. (val_address_of del, s)
        del_addr ← λ s. (del_address_of del, s)
        f val_addr del_addr)
  each_delegation del f h =
      >>=-Frames (λ s. (val_address_of del, s)) _ Framed-refl
        (λ a. >>=-Frames (λ s. (del_address_of del, s)) _ Framed-refl (λ b. h a b))

  withdraw_rewards-Framed : (h : ℤ) (dels : List Delegation) → Frames (withdraw_rewards h dels)
  unfolding withdraw_rewards
  withdraw_rewards-Framed h [] s = Framed-refl s
  withdraw_rewards-Framed h (del ∷ rest) s =
      each_delegation del
        (λ a b.
          modify (λ u. set_distribution (k.withdraw_delegation_rewards h b a u) u)
          >> withdraw_rewards h rest)
        (λ a b.
          distribution_set (k.withdraw_delegation_rewards h b a) (withdraw_rewards h rest)
            (withdraw_rewards-Framed h rest))
        s

  reinitialise_delegations-Framed :
      (h : ℤ) (dels : List Delegation) → Frames (reinitialise_delegations h dels)
  unfolding reinitialise_delegations
  reinitialise_delegations-Framed h [] s = Framed-refl s
  reinitialise_delegations-Framed h (del ∷ rest) s =
      let before = λ (a b : Bytes). hook (k.before_delegation_created h b a) in
      let after = λ (a b : Bytes). hook (k.after_delegation_modified h b a) in
      each_delegation del (λ a b. before a b >> (after a b >> reinitialise_delegations h rest))
        (λ a b.
          >>=-Frames (before a b) _ (λ u. ((k.before_delegation_created h b a u).1, refl))
            (λ _.
              >>=-Frames (after a b) _ (λ u. ((k.after_delegation_modified h b a u).1, refl))
                (λ _. reinitialise_delegations-Framed h rest)))
        s

  reinitialise_validator-Framed :
      (h : ℤ) (s : State) (a : Bytes) (v : Validator) → Framed s (reinitialise_validator h s a v).0
  unfolding reinitialise_validator
  reinitialise_validator-Framed h s a v = elim (Option-cases (k.outstanding_rewards s v.operator)) [
    | inl p ↦ rw (reinitialise_validator, p) (Framed-refl s)
    | inr (scraps, p) ↦ elim (Option-cases (k.community_pool s)) [
      | inl q ↦ rw (reinitialise_validator, p, q) (Framed-refl s)
      | inr (pool, q) ↦ elim (Option-cases (k.set_community_pool (k.add pool scraps) s)) [
        | inl r ↦ rw (reinitialise_validator, p, q, r) (Framed-refl s)
        | inr (d, r) ↦
            rw (reinitialise_validator, p, q, r)
              ((k.after_validator_created h v.operator (set_distribution d s)).1, refl)
      ]
    ]
  ]

  pub restart_distribution-Framed :
      (height : ℤ) (allowed : List Bytes) → Frames (restart_distribution height allowed)
  unfolding restart_distribution withdraw_commissions reinitialise_validators
  restart_distribution-Framed height allowed =
      >>=-Frames (lift (check_allowed allowed)) _ Framed-refl λ _.
        >>=-Frames (withdraw_commissions height) _
          (iterate-Framed (withdraw_commission height)
            (λ s a v. (k.withdraw_validator_commission height v.operator s, refl)))
          λ _.
            >>=-Frames (λ s. lift (some_or all_delegations (k.all_delegations s)) s) _ Framed-refl
              λ dels.
                >>=-Frames (withdraw_rewards height dels) _ (withdraw_rewards-Framed height dels)
                  λ _.
                    >>=-Frames (reinitialise_delegations height dels) _
                      (reinitialise_delegations-Framed height dels)
                      λ _.
                        distribution_set k.delete_all_validator_slash_events
                          (λ s.
                            reinitialise_validators (pos 0)
                              (set_distribution (k.delete_all_validator_historical_rewards s) s))
                          (distribution_set k.delete_all_validator_historical_rewards
                            (reinitialise_validators (pos 0))
                            (iterate-Framed (reinitialise_validator (pos 0))
                              (reinitialise_validator-Framed (pos 0))))
