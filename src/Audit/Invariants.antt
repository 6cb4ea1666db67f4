-- ===== src/Audit/Invariants.antt =====
-- The checks of chain/x/audit/keeper/invariants.go. Each returns whether the invariant is broken; the
-- messages are left out.
use energychain_node.Prelude.{
  ℕ, ◌+◌, Bool, true, false, ◌||◌, none, some, List, [], ◌∷◌, Bytes, exceeds, ltb, leb, eqb, ◌==◌,
  list_eq, ℕ_eq, if◌then◌else◌,
}
use energychain_node.Sdk.Store.{Store, walk_until}
use energychain_node.Sdk.Walk.{verdict, count_fault}
use energychain_node.Audit.Types.{AuditLog}
use energychain_node.Audit.State.{Keeper, State}
use energychain_node.Audit.Keeper as AuditKeeper

unfoldable pub max_key : ℕ → List (ℕ × AuditLog) → ℕ
max_key highest [] = highest
max_key highest ((id, l) ∷ rest) = max_key (if ltb highest id then id else highest) rest

module _ ⦃k : Keeper⦄ where
  unfoldable pub id_sequence_monotonic_invariant : State → Bool
  id_sequence_monotonic_invariant s = elim (k.id_sequence.peek s.id_sequence) [
    | none ↦ true
    | some seq ↦ if k.logs.walk_fails s.logs then true else ltb seq (max_key 0 (k.logs.walk s.logs))
  ]

  -- The callback of the walk over an index: only a missing log can end the walk.
  abbrev pub check_log : (AuditLog → Bytes) → State → ℕ → Bytes × ℕ → Unit {0} → ℕ × Bool
  check_log extract s dangling key _ = elim (AuditKeeper.get_audit_log s key.1) [
    | none ↦ (dangling + 1, leb 10 (dangling + 1))
    | some l ↦ (if extract l == key.0 then dangling else dangling + 1, false)
  ]

  unfoldable pub index_consistency_invariant :
      (index : Store (Bytes × ℕ) (Unit {0})) → index.Carrier → (AuditLog → Bytes) → State → Bool
  index_consistency_invariant index m extract s =
      verdict (index.walk_fails m) (walk_until (check_log extract s) 0 (index.walk m))

  unfoldable pub data_within_cap_invariant : State → Bool
  data_within_cap_invariant s =
      let cap = (AuditKeeper.get_params s).max_data_size in
      if eqb cap 0
      then false
      else verdict (k.logs.walk_fails s.logs)
          (walk_until (count_fault (λ _ l. exceeds l.content cap)) 0 (k.logs.walk s.logs))

  -- `AllInvariants` stops at the first that is broken.
  unfoldable pub all_invariants : State → Bool
  all_invariants s =
      id_sequence_monotonic_invariant s
      || index_consistency_invariant k.by_actor s.by_actor (λ l. l.actor) s
      || index_consistency_invariant k.by_event_type s.by_event_type (λ l. l.event_type) s
      || data_within_cap_invariant s
