-- ===== src/Audit/RateLimit/Block.antt =====
-- A block of messages of chain/x/audit. What a failed handler wrote may stay or be discarded.
use energychain_node.Prelude.{
  ℕ, suc, ◌+◌, ◌^◌, ◌≤◌, ◌<◌, ◌≡◌, ◌≢◌, sym, subst, ap, List, All, [], ◌∷◌, inl, inr, arith, Bytes,
  ◌==◌, list_eq, ℕ_eq, eq-cases, eq_iff, if◌then◌else◌,
}
use energychain_node.Outcome.{ok, Ends-ok, Ends-weaken, Ends-store}
use energychain_node.Sdk.Context.{Context}
use energychain_node.Audit.Types.{MsgRecordAudit, MsgUpdateParams}
use energychain_node.Audit.State.{Keeper, State}
use energychain_node.Audit.Keeper.{stored_audits, audit_count_key, get_params}
use energychain_node.Audit.MsgServer.{record_audit, update_params}
use energychain_node.Audit.Governance.{Replaced, update_params-Replaced}
use energychain_node.Audit.RateLimit.{
  times, limit, audit_count, Counted, Tried, record_audit-Counted,
}

-- A limit that limits, and that `bound` is not below.
abbrev pub IsLimitUpTo : ℕ → ℕ → Type 0
IsLimitUpTo bound m = (0 < m) × (m ≤ bound)

module _ ⦃k : Keeper⦄ (ctx : Context) where
  -- From the first store, a block that accepts recordings of the listed creators, and changes of the
  -- parameters that set the listed limits, ends at the last store.
  pub data Block : State → List Bytes → List ℕ → State → Type 0 where
    done : (s : State) → Block s [] [] s
    accepted :
        (s : State) (msg : MsgRecordAudit) (l : List Bytes) (ms : List ℕ) (t : State)
        → (record_audit ctx msg s).0 ≡ ok tt
        → Block (record_audit ctx msg s).1 l ms t
        → Block s (msg.creator ∷ l) ms t
    updated :
        (s : State) (msg : MsgUpdateParams) (l : List Bytes) (ms : List ℕ) (t : State)
        → (update_params msg s).0 ≡ ok tt
        → Block (update_params msg s).1 l ms t
        → Block s l (msg.params.max_audits_per_block_per_creator ∷ ms) t
    left :
        (s : State) (msg : MsgRecordAudit) (l : List Bytes) (ms : List ℕ) (t : State)
        → Block (record_audit ctx msg s).1 l ms t
        → Block s l ms t
    update_left :
        (s : State) (msg : MsgUpdateParams) (l : List Bytes) (ms : List ℕ) (t : State)
        → (update_params msg s).0 ≢ ok tt
        → Block (update_params msg s).1 l ms t
        → Block s l ms t

  module _ (a : Bytes) (bound : ℕ) where
    -- `spent` recordings of `a` are counted, and the counter is within the bound.
    record Within (spent : ℕ) (s : State) : Type 0 where
      limited : IsLimitUpTo bound (limit s)
      counted : spent ≤ audit_count s a
      room : audit_count s a ≤ bound

    limit_same :
        (s s' : State)
        → s'.params ≡ s.params
        → IsLimitUpTo bound (limit s)
        → IsLimitUpTo bound (limit s')
    unfolding get_params
    limit_same s s' e h = rw e h

    Within-le : (m n : ℕ) (s : State) → m ≤ n → Within n s → Within m s
    Within-le m n s l w = record {
      limited = w.limited;
      counted = omega (arith, w.counted);
      room = w.room;
    }

    Within-Counted :
        (n : ℕ) (addr : Bytes) (s s' : State)
        → Within n s
        → Counted addr s s'
        → Within (if addr == a then suc n else n) s'
    Within-Counted n addr s s' w x = elim (eq-cases addr a) [
      | inl same ↦
          let now = ap (audit_count s') same in
          let before = ap (audit_count s) same in
          rw ((eq_iff addr a).1 same) (record {
            limited = limit_same s s' x.params w.limited;
            counted = omega (arith, w.counted, x.one_more, now, before);
            room = omega (arith, w.limited, x.within, now);
          })
      | inr (other, ne) ↦ rw other (record {
        limited = limit_same s s' x.params w.limited;
        counted = omega (arith, w.counted, x.others a ne);
        room = omega (arith, w.room, x.others a ne);
      })
    ]

    Within-Tried :
        (n : ℕ) (addr : Bytes) (s s' : State) → Within n s → Tried addr s s' → Within n s'
    Within-Tried n addr s s' w (inl x) = record {
      limited = limit_same s s' x.params w.limited;
      counted = rw x.counts w.counted;
      room = rw x.counts w.room;
    }
    Within-Tried n addr s s' w (inr x) =
        Within-le n (if addr == a then suc n else n) s' (ground arith)
          (Within-Counted n addr s s' w x)

    -- A change of the parameters leaves the counters, and its limit is the one in force.
    Within-Replaced :
        (n : ℕ) (msg : MsgUpdateParams) (s s' : State)
        → IsLimitUpTo bound msg.params.max_audits_per_block_per_creator
        → Replaced s msg.params s'
        → Within n s
        → Within n s'
    Within-Replaced n msg s s' h x w = record {
      limited =
          subst (IsLimitUpTo bound) (sym (ap (λ p. p.max_audits_per_block_per_creator) x.params)) h;
      counted = rw x.counts w.counted;
      room = rw x.counts w.room;
    }

    Within-updated :
        (n : ℕ) (msg : MsgUpdateParams) (s : State)
        → (update_params msg s).0 ≡ ok tt
        → IsLimitUpTo bound msg.params.max_audits_per_block_per_creator
        → Within n s
        → Within n (update_params msg s).1
    Within-updated n msg s success h w = elim (update_params-Replaced s msg) [
      | inl (_, x) ↦ Within-Replaced n msg s (update_params msg s).1 h x w
      | inr (failed, _) ↦ absurd (failed success)
    ]

    Within-refused :
        (n : ℕ) (msg : MsgUpdateParams) (s : State)
        → (update_params msg s).0 ≢ ok tt
        → Within n s
        → Within n (update_params msg s).1
    Within-refused n msg s failed w = elim (update_params-Replaced s msg) [
      | inl (success, _) ↦ absurd (failed success)
      | inr (_, same) ↦ subst (Within n) (sym same) w
    ]

    Block-Within :
        (n : ℕ) (s : State) (l : List Bytes) (ms : List ℕ) (t : State)
        → bound < 2 ^ 32
        → All (IsLimitUpTo bound) ms
        → Block s l ms t
        → Within n s
        → Within (n + times a l) t
    Block-Within n s l ms t fits hs (done _) w = Within-le _ n s (omega arith) w
    Block-Within n s l ms t fits hs (accepted _ msg l' _ _ success rest) w =
        let h = record_audit-Counted ctx msg s w.limited.0 (omega (arith, w.limited)) in
        let x =
          Ends-ok (λ _. Counted msg.creator s) (Tried msg.creator s) (record_audit ctx msg s) tt
            success h in
        Within-le _ _ t (ground arith) (
          Block-Within (if msg.creator == a then suc n else n) _ l' ms t fits hs rest
            (Within-Counted n msg.creator s _ w x))
    Block-Within n s l ms t fits hs (updated _ msg _ ms' _ success rest) w =
        Block-Within n _ l ms' t fits hs.1 rest (Within-updated n msg s success hs.0 w)
    Block-Within n s l ms t fits hs (left _ msg _ _ _ rest) w =
        let h = record_audit-Counted ctx msg s w.limited.0 (omega (arith, w.limited)) in
        let tried = Ends-store (Tried msg.creator s) (record_audit ctx msg s) (
          Ends-weaken (λ _. Counted msg.creator s) (λ _. Tried msg.creator s) (Tried msg.creator s)
            (Tried msg.creator s) (record_audit ctx msg s) (λ _ _ x. inr x) (λ _ x. x) h) in
        Block-Within n _ l ms t fits hs rest (Within-Tried n msg.creator s _ w tried)
    Block-Within n s l ms t fits hs (update_left _ msg _ _ _ failed rest) w =
        Block-Within n _ l ms t fits hs rest (Within-refused n msg s failed w)

  pub recorded-le-limit :
      (a : Bytes) (bound : ℕ) (s t : State) (l : List Bytes) (ms : List ℕ)
      → bound < 2 ^ 32
      → IsLimitUpTo bound (limit s)
      → All (IsLimitUpTo bound) ms
      → s.audit_counts ≡ k.transient.wiped
      → Block s l ms t
      → times a l ≤ bound
  unfolding stored_audits
  recorded-le-limit a bound s t l ms fits first hs fresh b =
      let zero_count : audit_count s a ≡ 0 =
        rw (fresh, k.transient.get-wiped (audit_count_key a)) in
      let start : Within a bound 0 s = record {
        limited = first;
        counted = omega arith;
        room = omega (arith, zero_count);
      } in
      let w = Block-Within a bound 0 s l ms t fits hs b start in omega (arith, w.counted, w.room)
