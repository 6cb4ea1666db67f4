-- ===== src/Identity/Access.antt =====
-- Who may register and revoke in chain/x/identity, and what `HasRole` says afterwards.
use energychain_node.Prelude.{
  ◌≡◌, refl, sym, ap, ◌∙◌, true, false, some, inl, inr, arith, Bytes, ◌==◌, eq_iff, list_eq, ℕ_eq,
  Bool-cases, Option-cases,
}
use energychain_node.Outcome.{ok, ◌>>◌}
use energychain_node.Sdk.Store.{found}
use energychain_node.Sdk.Context.{Context, Event}
use energychain_node.Identity.Types.{
  Identity, MsgRegisterIdentity, MsgRevokeIdentity, status_active, status_revoked,
}
use energychain_node.Identity.State.{Keeper, State}
use energychain_node.Identity.Keeper as IdentityKeeper
use energychain_node.Identity.MsgServer.{
  emit, registered_event, revoked_event, is_admin, too_large, registered_identity, revoked_identity,
  register_identity, revoke_identity,
}
use energychain_node.Identity.Lifecycle.{IsConsistent, Stepped-keeps}
use energychain_node.Identity.Lifecycle.Handlers.{
  Steps, Steps-keeps, get_identity-found, revoke_identity-Stepped,
}

module _ ⦃k : Keeper⦄ where
  -- A successful write can be read back.
  write_read :
      (s : State) (i : Identity) (e : Event)
      → ((IdentityKeeper.set_identity i >> emit e) s).0 ≡ ok tt
      → IdentityKeeper.get_identity ((IdentityKeeper.set_identity i >> emit e) s).1 i.address
        ≡ some i
  unfolding IdentityKeeper.set_identity IdentityKeeper.get_identity
  write_read s i e done = elim (Bool-cases (k.identities.encodes i.address i)) [
    | inr bad ↦ absurd (ground arith)
    | inl fits ↦ elim (Bool-cases (k.by_role.encodes (i.role, i.address) tt)) [
      | inr bad ↦ absurd (ground arith)
      | inl good ↦
          rw (fits, good)
            (rw
              (IdentityKeeper.get_identity, k.identities.get-put_self s.identities i.address i fits)
              refl)
    ]
  ]

  has_role-active :
      (s : State) (a : Bytes) (i : Identity)
      → IdentityKeeper.get_identity s a ≡ some i
      → i.status ≡ status_active
      → IdentityKeeper.has_role s a i.role ≡ true
  unfolding IdentityKeeper.has_role
  has_role-active s a i there active =
      rw (IdentityKeeper.has_role, there)
        (ground (arith, eq_iff i.role i.role, eq_iff i.status status_active))

  has_role-revoked :
      (s : State) (a : Bytes) (i : Identity)
      → k.identities.get s.identities a ≡ found i
      → i.status ≡ status_revoked
      → (r : Bytes) → IdentityKeeper.has_role s a r ≡ false
  unfolding IdentityKeeper.has_role IdentityKeeper.get_identity
  has_role-revoked s a i there revoked r =
      let other : (i.status == status_active) ≡ false = ap (λ x. x == status_active) revoked in
      rw (IdentityKeeper.has_role, IdentityKeeper.get_identity, there, other) (ground arith)

  -- A registration that succeeds is one of the admin, of an address that was not registered, and the
  -- address then has exactly the record of the message, with its role.
  pub register_identity-registered :
      (ctx : Context) (msg : MsgRegisterIdentity) (s : State)
      → (register_identity ctx msg s).0 ≡ ok tt
      → (is_admin s msg.creator ≡ true)
        × (IdentityKeeper.is_registered s msg.address ≡ false)
        × (IdentityKeeper.get_identity (register_identity ctx msg s).1 msg.address
            ≡ some (registered_identity ctx msg))
        × (IdentityKeeper.has_role (register_identity ctx msg s).1 msg.address msg.role ≡ true)
  unfolding register_identity
  register_identity-registered ctx msg s done = elim (Bool-cases (is_admin s msg.creator)) [
    | inr other ↦ absurd (cc (rw other at done))
    | inl admin ↦ elim (Bool-cases (too_large s msg.metadata)) [
      | inl large ↦ absurd (cc (rw (admin, large) at done))
      | inr small ↦ elim (Bool-cases (IdentityKeeper.is_registered s msg.address)) [
        | inl known ↦ absurd (cc (rw (admin, small, known) at done))
        | inr new ↦
            let i = registered_identity ctx msg in
            let read = write_read s i (registered_event msg) (rw (admin, small, new) at done) in
            rw (admin, small, new) (refl, refl, read, has_role-active _ msg.address i read refl)
      ]
    ]
  ]

  revoked_there :
      (ctx : Context) (msg : MsgRevokeIdentity) (s : State)
      → IsConsistent s
      → (revoke_identity ctx msg s).0 ≡ ok tt
      → (is_admin s msg.creator ≡ true)
        × (i : Identity) × (k.identities.get (revoke_identity ctx msg s).1.identities msg.address
            ≡ found i)
        × (i.status ≡ status_revoked)
  unfolding revoke_identity
  revoked_there ctx msg s h done = elim (Bool-cases (is_admin s msg.creator)) [
    | inr other ↦ absurd (cc (rw other at done))
    | inl admin ↦ elim (Option-cases (IdentityKeeper.get_identity s msg.address)) [
      | inl missing ↦ absurd (cc (rw (admin, missing) at done))
      | inr (i, stored) ↦ elim (Bool-cases (i.status == status_revoked)) [
        | inl gone ↦ absurd (cc (rw (admin, stored, gone) at done))
        | inr live ↦
            let j = revoked_identity ctx i in
            let t = ((IdentityKeeper.set_identity j >> emit (revoked_event msg)) s).1 in
            let read = write_read s j (revoked_event msg) (rw (admin, stored, live) at done) in
            let there = get_identity-found t j.address j read in
            let e = h.keyed msg.address i (get_identity-found s msg.address i stored) in
            rw (admin, stored, live)
              (refl, j, ap (k.identities.get t.identities) (sym e) ∙ there, refl)
      ]
    ]
  ]

  -- A revocation that succeeds is one of the admin, and on a consistent store the address then has no
  -- role, after any further messages either.
  pub revoke_identity-for_good :
      (ctx : Context) (msg : MsgRevokeIdentity) (s t : State) (r : Bytes)
      → IsConsistent s
      → (revoke_identity ctx msg s).0 ≡ ok tt
      → Steps (revoke_identity ctx msg s).1 t
      → (is_admin s msg.creator ≡ true) × (IdentityKeeper.has_role t msg.address r ≡ false)
  revoke_identity-for_good ctx msg s t r h done steps =
      let (admin, i, there, gone) = revoked_there ctx msg s h done in
      let start = (Stepped-keeps s _ h (revoke_identity-Stepped ctx msg s h)).0 in
      let (j, later, _, _, still) = (Steps-keeps _ t start steps).1 msg.address i there in
      (admin, has_role-revoked t msg.address j later (still gone) r)
