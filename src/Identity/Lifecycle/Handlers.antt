-- ===== src/Identity/Lifecycle/Handlers.antt =====
-- Each handler writes at most what it may, however it ends, and so does every sequence of messages.
use energychain_node.Prelude.{
  ◌≡◌, ◌≢◌, refl, ap, ◌∙◌, false, ◌||◌, some, inl, inr, arith, Bytes, ◌==◌, list_eq, ℕ_eq, pair_eq,
  Bool-cases, Option-cases,
}
use energychain_node.Outcome.{Outcome, ok, err, panic, continue, ◌>>◌}
use energychain_node.Sdk.Store.{found}
use energychain_node.Sdk.Context.{Context, Event}
use energychain_node.Identity.Types.{
  Identity, MsgRegisterIdentity, MsgUpdateIdentity, MsgRevokeIdentity, MsgUpdateParams,
  status_revoked,
}
use energychain_node.Identity.State.{Keeper, State, Error}
use energychain_node.Identity.Keeper as IdentityKeeper
use energychain_node.Identity.MsgServer.{
  emit, registered_event, updated_event, revoked_event, is_admin, too_large, registered_identity,
  updated_identity, revoked_identity, register_identity, update_identity, revoke_identity,
  update_params,
}
use energychain_node.Identity.Lifecycle.{
  IsConsistent, Follows, Write, fresh, changed, Same, Stepped, set_identity-Stepped, Stepped-keeps,
  Follows-refl, Follows-trans,
}

module _ ⦃k : Keeper⦄ where
  pub get_identity-found :
      (s : State) (a : Bytes) (i : Identity)
      → IdentityKeeper.get_identity s a ≡ some i
      → k.identities.get s.identities a ≡ found i
  unfolding IdentityKeeper.get_identity
  get_identity-found s a i e = ground arith

  stored_there :
      (s : State)
      → IsConsistent s
      → (a : Bytes) (i : Identity) → IdentityKeeper.get_identity s a ≡ some i
      → k.identities.get s.identities i.address ≡ found i
  stored_there s h a i e =
      let there = get_identity-found s a i e in
      ap (k.identities.get s.identities) (h.keyed a i there) ∙ there

  not_registered :
      (s : State) (a : Bytes)
      → IdentityKeeper.is_registered s a ≡ false
      → (j : Identity) → k.identities.get s.identities a ≢ found j
  unfolding IdentityKeeper.is_registered
  not_registered s a e j there = ground (arith, k.identities.has_found s.identities a j there)

  unchanged : (s : State) → Stepped s s
  unchanged s = inl (record { identities = refl; by_role = refl })

  -- Events are no part of what is compared.
  emit_after :
      (s : State) (e : Event) (r : Outcome Error (Unit {0}) × State)
      → Stepped s r.1
      → Stepped s (continue r.0 (λ _. emit e) r.1).1
  emit_after s e (ok u, t) (inl x) = inl (record { identities = x.identities; by_role = x.by_role })
  emit_after s e (ok u, t) (inr (i, w, x)) =
      inr (i, w, record { encodes = x.encodes; identities = x.identities; by_role = x.by_role })
  emit_after s e (err b, t) x = x
  emit_after s e (panic, t) x = x

  stored_and_told :
      (s : State) (i : Identity) (e : Event)
      → Write s i
      → Stepped s ((IdentityKeeper.set_identity i >> emit e) s).1
  stored_and_told s i e w =
      emit_after s e (IdentityKeeper.set_identity i s) (set_identity-Stepped s i w)

  pub register_identity-Stepped :
      (ctx : Context) (msg : MsgRegisterIdentity) (s : State)
      → Stepped s (register_identity ctx msg s).1
  unfolding register_identity
  register_identity-Stepped ctx msg s = elim (Bool-cases (is_admin s msg.creator)) [
    | inr other ↦ rw other (unchanged s)
    | inl admin ↦ elim (Bool-cases (too_large s msg.metadata)) [
      | inl large ↦ rw (admin, large) (unchanged s)
      | inr small ↦ elim (Bool-cases (IdentityKeeper.is_registered s msg.address)) [
        | inl known ↦ rw (admin, small, known) (unchanged s)
        | inr new ↦
            rw (admin, small, new)
              (stored_and_told s (registered_identity ctx msg) (registered_event msg)
                (fresh (not_registered s msg.address new) refl))
      ]
    ]
  ]

  pub update_identity-Stepped :
      (ctx : Context) (msg : MsgUpdateIdentity) (s : State)
      → IsConsistent s
      → Stepped s (update_identity ctx msg s).1
  unfolding update_identity
  update_identity-Stepped ctx msg s h =
      elim (Option-cases (IdentityKeeper.get_identity s msg.address)) [
        | inl missing ↦ rw missing (unchanged s)
        | inr (i, stored) ↦
            elim (Bool-cases (is_admin s msg.creator || msg.creator == msg.address)) [
              | inr other ↦ rw (stored, other) (unchanged s)
              | inl allowed ↦ elim (Bool-cases (too_large s msg.metadata)) [
                | inl large ↦ rw (stored, allowed, large) (unchanged s)
                | inr small ↦
                    rw (stored, allowed, small)
                      (stored_and_told s (updated_identity ctx msg i)
                        (updated_event msg (updated_identity ctx msg i))
                        (changed i (stored_there s h msg.address i stored) refl refl (inl refl)))
              ]
            ]
      ]

  pub revoke_identity-Stepped :
      (ctx : Context) (msg : MsgRevokeIdentity) (s : State)
      → IsConsistent s
      → Stepped s (revoke_identity ctx msg s).1
  unfolding revoke_identity
  revoke_identity-Stepped ctx msg s h = elim (Bool-cases (is_admin s msg.creator)) [
    | inr other ↦ rw other (unchanged s)
    | inl admin ↦ elim (Option-cases (IdentityKeeper.get_identity s msg.address)) [
      | inl missing ↦ rw (admin, missing) (unchanged s)
      | inr (i, stored) ↦ elim (Bool-cases (i.status == status_revoked)) [
        | inl done ↦ rw (admin, stored, done) (unchanged s)
        | inr live ↦
            rw (admin, stored, live)
              (stored_and_told s (revoked_identity ctx i) (revoked_event msg)
                (changed i (stored_there s h msg.address i stored) refl refl (inr refl)))
      ]
    ]
  ]

  pub update_params-Same : (msg : MsgUpdateParams) (s : State) → Same s (update_params msg s).1
  unfolding update_params IdentityKeeper.set_params
  update_params-Same msg s = ground arith

  -- The messages of the module, one after another; a failed one keeps what it wrote.
  pub data Steps : State → State → Type 0 where
    done : (s : State) → Steps s s
    registered :
        (ctx : Context) (msg : MsgRegisterIdentity) (s t : State)
        → Steps (register_identity ctx msg s).1 t
        → Steps s t
    updated :
        (ctx : Context) (msg : MsgUpdateIdentity) (s t : State)
        → Steps (update_identity ctx msg s).1 t
        → Steps s t
    revoked :
        (ctx : Context) (msg : MsgRevokeIdentity) (s t : State)
        → Steps (revoke_identity ctx msg s).1 t
        → Steps s t
    governed : (msg : MsgUpdateParams) (s t : State) → Steps (update_params msg s).1 t → Steps s t

  keep_then :
      (s u t : State)
      → IsConsistent u × Follows s u
      → (IsConsistent u → IsConsistent t × Follows u t)
      → IsConsistent t × Follows s t
  keep_then s u t (c, f) next = let (c', f') = next c in (c', Follows-trans s u t f f')

  -- From a consistent store, every sequence of messages, successful or not, ends in a consistent
  -- store, where every identity keeps its role and the time of its registration and a revoked one
  -- is still revoked.
  pub Steps-keeps : (s t : State) → IsConsistent s → Steps s t → IsConsistent t × Follows s t
  Steps-keeps s t h (done _) = (h, Follows-refl s)
  Steps-keeps s t h (registered ctx msg _ _ rest) =
      keep_then s _ t (Stepped-keeps s _ h (register_identity-Stepped ctx msg s))
        (λ c. Steps-keeps _ t c rest)
  Steps-keeps s t h (updated ctx msg _ _ rest) =
      keep_then s _ t (Stepped-keeps s _ h (update_identity-Stepped ctx msg s h))
        (λ c. Steps-keeps _ t c rest)
  Steps-keeps s t h (revoked ctx msg _ _ rest) =
      keep_then s _ t (Stepped-keeps s _ h (revoke_identity-Stepped ctx msg s h))
        (λ c. Steps-keeps _ t c rest)
  Steps-keeps s t h (governed msg _ _ rest) =
      keep_then s _ t (Stepped-keeps s _ h (inl (update_params-Same msg s)))
        (λ c. Steps-keeps _ t c rest)
