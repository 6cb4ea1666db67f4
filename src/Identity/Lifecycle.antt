-- ===== src/Identity/Lifecycle.antt =====
-- What the handlers of chain/x/identity/keeper/msg_server.go write, and what that keeps.
pub mod Handlers
use energychain_node.Prelude.{
  ◌≡◌, ◌≢◌, ◌⊎◌, refl, sym, ap, ◌∙◌, true, false, inl, inr, arith, Bytes, ◌==◌, eq_iff, eq-cases,
  list_eq, ℕ_eq, pair_eq, Bool-cases,
}
use energychain_node.Sdk.Store.{found}
use energychain_node.Sdk.Laws.{get-put}
use energychain_node.Identity.Types.{Identity, status_active, status_revoked}
use energychain_node.Identity.State.{Keeper, State}
use energychain_node.Identity.Keeper as IdentityKeeper

module _ ⦃k : Keeper⦄ where
  -- An identity stands under its own address, and an entry of the index by role has its identity.
  pub record IsConsistent (s : State) : Type 0 where
    pub keyed :
        (a : Bytes) (i : Identity) → k.identities.get s.identities a ≡ found i → i.address ≡ a
    pub roles :
        (r a : Bytes)
        → k.by_role.get s.by_role (r, a) ≡ found tt
        → (i : Identity) × (k.identities.get s.identities a ≡ found i) × (i.role ≡ r)

  -- A registered identity is still registered, with the role and the time of its registration, and
  -- still revoked if it was.
  abbrev pub Follows : State → State → Type 0
  Follows s s' =
      (a : Bytes) (i : Identity)
      → k.identities.get s.identities a ≡ found i
      → (j : Identity) × (k.identities.get s'.identities a ≡ found j)
        × (j.role ≡ i.role)
        × (j.registered_at ≡ i.registered_at)
        × (i.status ≡ status_revoked → j.status ≡ status_revoked)

  -- The record that a handler may write: a new one that is active, or a stored one with the same
  -- role, whose status stays or becomes revoked.
  pub data Write (s : State) (i : Identity) : Type 0 where
    fresh :
        ((j : Identity) → k.identities.get s.identities i.address ≢ found j)
        → i.status ≡ status_active
        → Write s i
    changed :
        (j : Identity)
        → k.identities.get s.identities i.address ≡ found j
        → i.role ≡ j.role
        → i.registered_at ≡ j.registered_at
        → (i.status ≡ j.status) ⊎ (i.status ≡ status_revoked)
        → Write s i

  pub record Same (s s' : State) : Type 0 where
    pub identities : s'.identities ≡ s.identities
    pub by_role : s'.by_role ≡ s.by_role

  -- The identity is written, and the index by role has its entry at most in addition.
  pub record Written (i : Identity) (s s' : State) : Type 0 where
    pub encodes : k.identities.encodes i.address i ≡ true
    pub identities : s'.identities ≡ k.identities.put s.identities i.address i
    pub by_role :
        (s'.by_role ≡ s.by_role)
        ⊎ ((k.by_role.encodes (i.role, i.address) tt ≡ true)
            × (s'.by_role ≡ k.by_role.put s.by_role (i.role, i.address) tt))

  abbrev pub Stepped : State → State → Type 0
  Stepped s s' = Same s s' ⊎ ((i : Identity) × Write s i × Written i s s')

  pub set_identity-Stepped :
      (s : State) (i : Identity) → Write s i → Stepped s (IdentityKeeper.set_identity i s).1
  unfolding IdentityKeeper.set_identity
  set_identity-Stepped s i w = elim (Bool-cases (k.identities.encodes i.address i)) [
    | inr bad ↦ rw bad (inl (record { identities = refl; by_role = refl }))
    | inl fits ↦ elim (Bool-cases (k.by_role.encodes (i.role, i.address) tt)) [
      | inr bad ↦
          rw (fits, bad)
            (inr (i, w, record { encodes = fits; identities = refl; by_role = inl refl }))
      | inl good ↦
          rw (fits, good)
            (inr (i, w, record { encodes = fits; identities = refl; by_role = inr (good, refl) }))
    ]
  ]

  module _ (s s' : State) (i : Identity) (x : Written i s s') where
    -- Who is stored under an address after the write.
    written_there : k.identities.get s'.identities i.address ≡ found i
    written_there = rw x.identities (k.identities.get-put_self s.identities i.address i x.encodes)

    written_other :
        (a : Bytes)
        → i.address ≢ a
        → k.identities.get s'.identities a ≡ k.identities.get s.identities a
    written_other a ne =
        rw x.identities (k.identities.get-put_ne s.identities i.address i a x.encodes ne)

    same_record : (a : Bytes) → i.address ≡ a → k.identities.get s'.identities a ≡ found i
    same_record a e = ap (k.identities.get s'.identities) (sym e) ∙ written_there

    rewritten_record :
        (a : Bytes) (j : Identity)
        → Write s i
        → i.address ≡ a
        → k.identities.get s.identities a ≡ found j
        → (i.role ≡ j.role)
          × (i.registered_at ≡ j.registered_at)
          × (j.status ≡ status_revoked → i.status ≡ status_revoked)
    rewritten_record a j (fresh none_there active) e there =
        absurd (none_there j (ap (k.identities.get s.identities) e ∙ there))
    rewritten_record a j (changed j' before role time status) e there =
        let same : j' ≡ j = cc (before, there, ap (k.identities.get s.identities) e) in
        (
          role ∙ ap (λ x. x.role) same,
          time ∙ ap (λ x. x.registered_at) same,
          λ revoked. elim status [
            | inl kept ↦ kept ∙ ap (λ x. x.status) same ∙ revoked
            | inr now ↦ now
          ],
        )

    pub Written-Follows : Write s i → Follows s s'
    Written-Follows w a j there = elim (eq-cases i.address a) [
      | inr (_, ne) ↦ (j, written_other a ne ∙ there, refl, refl, λ h. h)
      | inl e ↦
          let (role, time, status) = rewritten_record a j w e there in
          (i, same_record a e, role, time, status)
    ]

    keeps_role :
        (r a : Bytes)
        → Write s i
        → ((j : Identity) × (k.identities.get s.identities a ≡ found j) × (j.role ≡ r))
        → (j : Identity) × (k.identities.get s'.identities a ≡ found j) × (j.role ≡ r)
    keeps_role r a w (j, there, role) =
        let (j', there', role', _, _) = Written-Follows w a j there in (j', there', role' ∙ role)

    written_role :
        (r a : Bytes)
        → k.by_role.get s'.by_role (r, a) ≡ found tt
        → ((i.role ≡ r) × (i.address ≡ a)) ⊎ (k.by_role.get s.by_role (r, a) ≡ found tt)
    written_role r a g = elim x.by_role [
      | inl e ↦ inr (rw e at g)
      | inr (fits, e) ↦ elim (eq-cases {A = Bytes × Bytes} (i.role, i.address) (r, a)) [
        | inl p ↦ inl (ap (λ (q : Bytes × Bytes). q.0) p, ap (λ (q : Bytes × Bytes). q.1) p)
        | inr (other, ne) ↦ inr (
            sym (k.by_role.get-put_ne s.by_role (i.role, i.address) tt (r, a) fits ne)
            ∙ (rw e at g))
      ]
    ]

    pub Written-IsConsistent : IsConsistent s → Write s i → IsConsistent s'
    Written-IsConsistent h w = record {
      keyed = λ a j g. elim (eq-cases i.address a) [
        | inl e ↦ cc (same_record a e, g, e)
        | inr (_, ne) ↦ h.keyed a j (sym (written_other a ne) ∙ g)
      ];
      roles = λ r a g. elim (written_role r a g) [
        | inl (role, e) ↦ (i, same_record a e, role)
        | inr before ↦ keeps_role r a w (h.roles r a before)
      ];
    }

  pub Follows-refl : (s : State) → Follows s s
  Follows-refl s a i there = (i, there, refl, refl, λ h. h)

  pub Follows-trans : (s t u : State) → Follows s t → Follows t u → Follows s u
  Follows-trans s t u p q a i there =
      let (j, there', role, time, status) = p a i there in
      let (j', there'', role', time', status') = q a j there' in
      (j', there'', role' ∙ role, time' ∙ time, λ h. status' (status h))

  -- What a handler wrote keeps the store consistent and the identities.
  pub Stepped-keeps :
      (s s' : State) → IsConsistent s → Stepped s s' → IsConsistent s' × Follows s s'
  Stepped-keeps s s' h (inl x) = (
    record {
      keyed = λ a i g. h.keyed a i (rw x.identities at g);
      roles = λ r a g.
          let (i, there, role) = h.roles r a (rw x.by_role at g) in
          (i, rw x.identities there, role);
    },
    λ a i there. (i, rw x.identities there, refl, refl, λ h. h),
  )
  Stepped-keeps s s' h (inr (i, w, x)) =
      (Written-IsConsistent s s' i x h w, Written-Follows s s' i x w)
