-- ===== src/Mempool/Configured.antt =====
-- What `configureEVMMempool` of chain/mempool.go leaves in the app.
use energychain_node.Prelude.{
  Bool, true, false, Option, none, some, ◌≡◌, refl, ◌⊎◌, inl, inr, if-elim, Option-cases, not, ◌∙◌,
  ap,
}
use energychain_node.Prelude.Int.{ℤ, pos, ltb_ℤ}
use energychain_node.Mempool.Setup.{
  AppOptions, EvmMempoolConfig, KrakatoaMempoolConfig, Pool, krakatoa, experimental, Verifier,
  no_check, checked_by_app, App, SetupError, fallback_disabled, allow_experimental_fallback,
  use_krakatoa, use_experimental, configure_evm_mempool, create_krakatoa_mempool_config,
  create_mempool_config,
}

module _ {LegacyPool : Type 0} where
  -- Outside exclusive operation, the operator set the flag of the fallback; or the flag is not set,
  -- and the options are the `EmptyAppOptions` of the simulations, which need no opt-in.
  abbrev pub IsFallbackAllowed : AppOptions LegacyPool → Type 0
  IsFallbackAllowed opts =
      (opts.should_operate_exclusively ≡ false)
      × ((opts.allow_unsafe_experimental_fallback ≡ some true)
          ⊎ ((opts.allow_unsafe_experimental_fallback ≡ none) × (opts.is_empty ≡ true)))

  allowed-cases :
      (opts : AppOptions LegacyPool)
      → allow_experimental_fallback opts ≡ true
      → (opts.allow_unsafe_experimental_fallback ≡ some true)
        ⊎ ((opts.allow_unsafe_experimental_fallback ≡ none) × (opts.is_empty ≡ true))
  unfolding allow_experimental_fallback
  allowed-cases opts h = elim (Option-cases opts.allow_unsafe_experimental_fallback) [
    | inl unset ↦ inr (unset, rw (allow_experimental_fallback, unset) at h)
    | inr (true, set) ↦ inl set
    | inr (false, set) ↦ absurd (cc (rw (allow_experimental_fallback, set) at h))
  ]

module _ {AnteHandler BroadcastFn LegacyPool : Type 0} where
  -- The handlers that a pool wants, by its kind.
  abbrev pub verifier : Pool AnteHandler BroadcastFn LegacyPool → Verifier
  verifier (krakatoa c n) = no_check
  verifier (experimental c n) = checked_by_app

  abbrev pub proposer :
      Option (Pool AnteHandler BroadcastFn LegacyPool)
      → Option (Pool AnteHandler BroadcastFn LegacyPool × Verifier)
  proposer none = none
  proposer (some p) = some (p, verifier p)

  abbrev pub exclusive :
      Option (Pool AnteHandler BroadcastFn LegacyPool)
      → Option (Pool AnteHandler BroadcastFn LegacyPool)
  exclusive (some (krakatoa c n)) = some (krakatoa c n)
  exclusive _ = none

  abbrev pub fallback :
      Option (Pool AnteHandler BroadcastFn LegacyPool)
      → Option (Pool AnteHandler BroadcastFn LegacyPool)
  fallback (some (experimental c n)) = some (experimental c n)
  fallback _ = none

  -- Every handler that there is has the app's one pool, and the pool has its handlers.
  pub record IsCoherent (app : App AnteHandler BroadcastFn LegacyPool) : Type 0 where
    pub pools : app.mempool ≡ app.evm_mempool
    pub proposals : app.prepare_proposal ≡ proposer app.evm_mempool
    pub insertions : app.insert_tx_handler ≡ exclusive app.evm_mempool
    pub reaping : app.reap_txs_handler ≡ exclusive app.evm_mempool
    pub checks : app.check_tx_handler ≡ fallback app.evm_mempool

  -- What may be said of the pool of an app: a fallback only where it is allowed.
  abbrev pub IsAllowed :
      AppOptions LegacyPool → Option (Pool AnteHandler BroadcastFn LegacyPool) → Type 0
  IsAllowed opts none = Unit
  IsAllowed opts (some (krakatoa c n)) = opts.should_operate_exclusively ≡ true
  IsAllowed opts (some (experimental c n)) = IsFallbackAllowed opts

  abbrev pub IsSetUp :
      AppOptions LegacyPool
      → App AnteHandler BroadcastFn LegacyPool
      → Option SetupError × App AnteHandler BroadcastFn LegacyPool
      → Type 0
  IsSetUp opts app r =
      IsCoherent r.1 × IsAllowed opts r.1.evm_mempool × ((r.0 ≡ none) ⊎ (r.1 ≡ app))

  module _ (opts : AppOptions LegacyPool) (app : App AnteHandler BroadcastFn LegacyPool)
      (new : app.evm_mempool ≡ none) (h : IsCoherent app) where
    unchanged-IsSetUp : (e : Option SetupError) → IsSetUp opts app (e, app)
    unchanged-IsSetUp e = (h, rw new tt, inr refl)

    use_krakatoa-IsSetUp :
        (c : KrakatoaMempoolConfig AnteHandler BroadcastFn LegacyPool) (n : ℤ)
        → opts.should_operate_exclusively ≡ true
        → IsSetUp opts app (none, use_krakatoa (krakatoa c n) app)
    unfolding use_krakatoa
    use_krakatoa-IsSetUp c n e = (
      record {
        pools = refl;
        proposals = refl;
        insertions = refl;
        reaping = refl;
        checks = h.checks ∙ ap fallback new;
      },
      e,
      inl refl,
    )

    use_experimental-IsSetUp :
        (c : EvmMempoolConfig AnteHandler BroadcastFn LegacyPool) (n : ℤ)
        → IsFallbackAllowed opts
        → IsSetUp opts app (none, use_experimental (experimental c n) app)
    unfolding use_experimental
    use_experimental-IsSetUp c n e = (
      record {
        pools = refl;
        proposals = refl;
        insertions = h.insertions ∙ ap exclusive new;
        reaping = h.reaping ∙ ap exclusive new;
        checks = refl;
      },
      e,
      inl refl,
    )

  pub configure_evm_mempool-IsSetUp :
      (opts : AppOptions LegacyPool) (app : App AnteHandler BroadcastFn LegacyPool)
      → app.evm_mempool ≡ none
      → IsCoherent app
      → IsSetUp opts app (configure_evm_mempool opts app)
  unfolding configure_evm_mempool
  configure_evm_mempool-IsSetUp opts app new h =
      let same = unchanged-IsSetUp opts app new h in
      let P = IsSetUp opts app in
      if-elim P (not app.chain_config) _ _ (λ _. same none)
        (λ _.
          if-elim P (ltb_ℤ opts.cosmos_pool_max_tx (pos 0)) _ _ (λ _. same none)
            (λ _.
              if-elim P opts.should_operate_exclusively _ _
                (use_krakatoa-IsSetUp opts app new h (create_krakatoa_mempool_config app opts)
                  opts.cosmos_pool_max_tx)
                (λ e.
                  if-elim P (not (allow_experimental_fallback opts)) _ _
                    (λ _. same (some fallback_disabled))
                    (λ on.
                      use_experimental-IsSetUp opts app new h (create_mempool_config app opts)
                        opts.cosmos_pool_max_tx (e, allowed-cases opts (not_false on))))))
    where
      not_false : {b : Bool} → not b ≡ false → b ≡ true
      not_false {b = true} h = refl
      not_false {b = false} h = cc
