-- ===== src/Audit/Sound.antt =====
-- What the checks of chain/x/audit/keeper/invariants.go say of a store that represents a ledger.
use energychain_node.Prelude.{
  ℕ, ◌≤◌, ◌≡◌, ◌↔◌, ◌⊎◌, refl, false, some, List, [], ◌∷◌, inl, inr, arith, Bytes, All, All-intro,
  ltb, eqb, eqb_iff, exceeds, length, eq_iff, list_eq, ℕ_eq, pair_eq, Bool-cases, if◌then◌else◌,
}
use energychain_node.Sdk.Store.{Store, found}
use energychain_node.Sdk.Walk.{verdict-exact, count_fault-exact}
use energychain_node.Sdk.Laws.{Lookup-cases}
use energychain_node.Audit.Types.{AuditLog}
use energychain_node.Audit.State.{Keeper, State}
use energychain_node.Audit.Keeper as AuditKeeper
use energychain_node.Audit.Invariants.{
  max_key, check_log, id_sequence_monotonic_invariant, index_consistency_invariant,
  data_within_cap_invariant, all_invariants,
}
use energychain_node.Audit.Ledger.{entry, Represents, Indexes, entry_fresh}

max_key-le : (n h : ℕ) (l : List (ℕ × AuditLog)) → h ≤ n → All (λ e. e.0 ≤ n) l → max_key h l ≤ n
unfolding max_key
max_key-le n h [] le all = le
max_key-le n h ((i, d) ∷ l) le (below, all) =
    max_key-le n (if ltb h i then i else h) l (ground arith) all

module _ ⦃k : Keeper⦄ (extract : AuditLog → Bytes) (s : State) where
  abbrev HasLog : Bytes × ℕ → Type 0
  HasLog key = (l : AuditLog) × (k.logs.get s.logs key.1 ≡ found l) × (extract l ≡ key.0)

  check_log-HasLog :
      (c : ℕ) (key : Bytes × ℕ) → HasLog key → check_log extract s c key tt ≡ (c, false)
  unfolding AuditKeeper.get_audit_log
  check_log-HasLog c key (d, there, same) = ground (arith, eq_iff (extract d) key.0)

  check_log-le : (c : ℕ) (key : Bytes × ℕ) → c ≤ (check_log extract s c key tt).0
  unfolding AuditKeeper.get_audit_log
  check_log-le c key = ground arith

  check_log_zero : (key : Bytes × ℕ) → (check_log extract s 0 key tt).0 ≡ 0 → HasLog key
  unfolding AuditKeeper.get_audit_log
  check_log_zero key e = elim (Lookup-cases (k.logs.get s.logs key.1)) [
    | inl (d, there) ↦ (d, there, ground (arith, eq_iff (extract d) key.0))
    | inr (inl missing) ↦ absurd (ground arith)
    | inr (inr bad) ↦ absurd (ground arith)
  ]

  -- On an index whose walk ends without an error, its check passes exactly if each of its entries
  -- has a log with its key.
  index_consistency_invariant-exact :
      (index : Store (Bytes × ℕ) (Unit {0})) (m : index.Carrier)
      → index.walk_fails m ≡ false
      → (index_consistency_invariant index m extract s ≡ false)
        ↔ ((key : Bytes × ℕ) (u : Unit {0}) → index.get m key ≡ found u → HasLog key)
  unfolding index_consistency_invariant
  index_consistency_invariant-exact =
      verdict-exact (check_log extract s) (λ key _. HasLog key) (λ n key _. check_log-le n key)
        (λ key _ h. check_log-HasLog 0 key h) (λ key _ e. check_log_zero key e)

module _ ⦃k : Keeper⦄ (ls : List AuditLog) (s : State) (r : Represents ls s) where
  index_passes :
      (index : Store (Bytes × ℕ) (Unit {0})) (m : index.Carrier) (field : AuditLog → Bytes)
      → index.walk_fails m ≡ false
      → Indexes index field ls m
      → index_consistency_invariant index m field s ≡ false
  index_passes index m field ends h =
      (index_consistency_invariant-exact field s index m ends).1 (λ key u g.
        let (l, there, same) = (h key.0 key.1).0 g in (l, (r.logs key.1 l).1 there, same))

  numbers_bounded : (i : ℕ) (l : AuditLog) → k.logs.get s.logs i ≡ found l → i ≤ length ls
  numbers_bounded i l g = elim (Bool-cases (ltb (length ls) i)) [
    | inl above ↦ absurd (cc ((r.logs i l).0 g, entry_fresh ls i (ground arith)))
    | inr below ↦ ground arith
  ]

  sequence_passes : k.logs.walk_fails s.logs ≡ false → id_sequence_monotonic_invariant s ≡ false
  unfolding id_sequence_monotonic_invariant
  sequence_passes ends =
      let below = max_key-le (length ls) 0 (k.logs.walk s.logs) (omega arith) (
        All-intro (λ e. e.0 ≤ length ls) (k.logs.walk s.logs)
          (λ e i. numbers_bounded e.0 e.1 (k.logs.walk_sound s.logs e.0 e.1 i))) in
      rw (id_sequence_monotonic_invariant, r.sequence, ends) (ground arith)

  within_cap :
      let cap = (AuditKeeper.get_params s).max_data_size in
      k.logs.walk_fails s.logs ≡ false
      → (data_within_cap_invariant s ≡ false) ↔ (
          (cap ≡ 0)
          ⊎ ((i : ℕ) (l : AuditLog) → entry ls i ≡ some l → exceeds l.content cap ≡ false))
  unfolding data_within_cap_invariant
  within_cap ends =
      let cap = (AuditKeeper.get_params s).max_data_size in
      let (sound, complete) =
        count_fault-exact (λ (_ : ℕ) (l : AuditLog). exceeds l.content cap) k.logs s.logs ends in
      elim (Bool-cases (eqb cap 0)) [
        | inl off ↦
            rw (data_within_cap_invariant, off) (λ _. inl ((eqb_iff cap 0).0 off), λ _. refl)
        | inr on ↦
            rw (data_within_cap_invariant, on)
              (
                λ pass. inr (λ i l there. sound pass i l ((r.logs i l).1 there)),
                λ h. elim h [
                  | inl zero_cap ↦ absurd (cc ((eqb_iff cap 0).1 zero_cap, on))
                  | inr all ↦ complete (λ i l g. all i l ((r.logs i l).0 g))
                ],
              )
      ]

  -- On a store that represents a ledger, and whose walks end without an error, the checks all pass
  -- exactly if no log of the ledger is larger than the cap, or the cap is 0: the sequence and the
  -- two indexes are never at fault.
  pub all_invariants-exact :
      let cap = (AuditKeeper.get_params s).max_data_size in
      k.logs.walk_fails s.logs ≡ false
      → k.by_actor.walk_fails s.by_actor ≡ false
      → k.by_event_type.walk_fails s.by_event_type ≡ false
      → (all_invariants s ≡ false) ↔ (
          (cap ≡ 0)
          ⊎ ((i : ℕ) (l : AuditLog) → entry ls i ≡ some l → exceeds l.content cap ≡ false))
  unfolding all_invariants
  all_invariants-exact ends ends_actor ends_event_type =
      let cap = (AuditKeeper.get_params s).max_data_size in
      let a = sequence_passes ends in
      let b = index_passes k.by_actor s.by_actor (λ l. l.actor) ends_actor r.by_actor in
      let c =
        index_passes k.by_event_type s.by_event_type (λ l. l.event_type) ends_event_type
          r.by_event_type in
      rw (all_invariants, a, b, c) (within_cap ends)
