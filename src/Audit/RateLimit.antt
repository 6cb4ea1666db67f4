-- ===== src/Audit/RateLimit.antt =====
-- The limit per block on the recordings of one creator, in chain/x/audit/keeper.
pub mod Block
use energychain_node.Prelude.{
  exceeds, ℕ, suc, ◌+◌, ◌%◌, ◌^◌, ◌≤◌, ◌<◌, ◌≡◌, ◌≢◌, ◌⊎◌, refl, sym, ap, ◌∙◌, Bool, true, false,
  ◌&&◌, some, List, [], ◌∷◌, inl, inr, arith, Bytes, ltb, leb, eqb, ◌==◌, eq_iff, eq-cases, list_eq,
  ℕ_eq, Bool-cases, if◌then◌else◌,
}
use energychain_node.Outcome.{
  Outcome, ok, err, panic, Exec, continue, Ends, Ends-bind, Ends-ok, Ends-weaken, Ends-store,
  Ends-of_store, ◌>>◌,
}
use energychain_node.Binary.{put_uint32, uint32-put_uint32, length-put_uint32}
use energychain_node.Sdk.Context.{Context}
use energychain_node.Audit.Types.{AuditLog, MsgRecordAudit}
use energychain_node.Audit.State.{Keeper, State, Error}
use energychain_node.Audit.Keeper as AuditKeeper
use energychain_node.Audit.Keeper.{stored_audits, audit_count_key, get_params}
use energychain_node.Audit.MsgServer.{
  emit, recorded_log, recorded_event, is_allowed_auditor, record_audit,
}

stored_audits-put_uint32 : (n : ℕ) → n < 2 ^ 32 → stored_audits (some (put_uint32 n)) ≡ n
unfolding stored_audits
stored_audits-put_uint32 n h = ground (arith, length-put_uint32 n, uint32-put_uint32 n h)

-- How often an address stands in a list.
abbrev pub times : Bytes → List Bytes → ℕ
times a [] = 0
times a (x ∷ xs) = let rest = times a xs in if x == a then suc rest else rest

module _ ⦃k : Keeper⦄ where
  abbrev pub limit : State → ℕ
  limit s = (get_params s).max_audits_per_block_per_creator

  abbrev audit_count : State → Bytes → ℕ
  audit_count s a = stored_audits (k.transient.get s.audit_counts (audit_count_key a))

  record Untouched (s s' : State) : Type 0 where
    params : s'.params ≡ s.params
    counts : s'.audit_counts ≡ s.audit_counts

  -- One more recording of `addr` is counted, and it is within the limit.
  record Counted (addr : Bytes) (s s' : State) : Type 0 where
    params : s'.params ≡ s.params
    one_more : audit_count s' addr ≡ audit_count s addr + 1
    within : audit_count s' addr ≤ limit s
    others : (a : Bytes) → addr ≢ a → audit_count s' a ≡ audit_count s a

  abbrev Tried : Bytes → State → State → Type 0
  Tried addr s s' = Untouched s s' ⊎ Counted addr s s'

  Untouched-refl : (s : State) → Untouched s s
  Untouched-refl s = record { params = refl; counts = refl }

  Untouched-trans : (s t u : State) → Untouched s t → Untouched t u → Untouched s u
  Untouched-trans s t u a b = record { params = b.params ∙ a.params; counts = b.counts ∙ a.counts }

  Counted-then :
      (addr : Bytes) (s t u : State) → Counted addr s t → Untouched t u → Counted addr s u
  Counted-then addr s t u c x = record {
    params = x.params ∙ c.params;
    one_more = rw x.counts c.one_more;
    within = rw x.counts c.within;
    others = λ a ne. rw x.counts (c.others a ne);
  }

  key-injective : (a b : Bytes) → audit_count_key a ≡ audit_count_key b → a ≡ b
  key-injective a b h = cc

  count_set :
      (addr : Bytes) (s : State)
      → audit_count s addr < limit s
      → limit s < 2 ^ 32
      → Counted addr s (record s {
        audit_counts =
            k.transient.set s.audit_counts
              (audit_count_key addr)
              (put_uint32 ((audit_count s addr + 1) % 2 ^ 32));
      })
  count_set addr s room fits =
      let n = (audit_count s addr + 1) % 2 ^ 32 in
      let key = audit_count_key addr in
      let now : stored_audits
            (k.transient.get (k.transient.set s.audit_counts key (put_uint32 n)) key)
          ≡ n =
        rw (k.transient.get-set_self s.audit_counts key (put_uint32 n))
          (stored_audits-put_uint32 n (omega arith)) in
      record {
        params = refl;
        one_more = omega (arith, now);
        within = omega (arith, now);
        others = λ a ne. rw (
            k.transient.get-set_ne s.audit_counts key (put_uint32 n) (audit_count_key a)
              (λ p. ne (key-injective addr a p)));
      }

  check_and_incr_audit_count-Counted :
      (addr : Bytes) (s : State)
      → 0 < limit s
      → limit s < 2 ^ 32
      → Ends (λ _. Counted addr s) (Untouched s) (AuditKeeper.check_and_incr_audit_count addr s)
  unfolding AuditKeeper.check_and_incr_audit_count
  check_and_incr_audit_count-Counted addr s pos fits =
      let on : eqb (limit s) 0 ≡ false = ground arith in
      elim (Bool-cases (leb (limit s) (audit_count s addr))) [
        | inl full ↦ rw (on, full) (Untouched-refl s)
        | inr room ↦ rw (on, room) (count_set addr s (ground arith) fits)
      ]

  record_audit_log-Untouched :
      (l : AuditLog) (s : State) → Untouched s (AuditKeeper.record_audit_log l s).1
  unfolding AuditKeeper.record_audit_log
  record_audit_log-Untouched l s = ground arith

  increment_counter-Untouched :
      (id : ℕ) (s : State) → Untouched s (AuditKeeper.increment_counter id s).1
  unfolding AuditKeeper.increment_counter
  increment_counter-Untouched id s = ground arith

  continue-Untouched :
      (r : Outcome Error (Unit {0}) × State) (m : Exec Error State (Unit {0})) (s : State)
      → Untouched s r.1
      → ((t : State) → Untouched t (m t).1)
      → Untouched s (continue r.0 (λ _. m) r.1).1
  continue-Untouched (ok a, t) m s h next = Untouched-trans s t (m t).1 h (next t)
  continue-Untouched (err e, t) m s h next = h
  continue-Untouched (panic, t) m s h next = h

  abbrev append : Context → MsgRecordAudit → ℕ → Exec Error State (Unit {0})
  append ctx msg id = do
    AuditKeeper.record_audit_log (recorded_log ctx msg id)
    AuditKeeper.increment_counter id
    emit (recorded_event id msg)

  append-Untouched :
      (ctx : Context) (msg : MsgRecordAudit) (id : ℕ) (s : State)
      → Untouched s (append ctx msg id s).1
  append-Untouched ctx msg id s =
      continue-Untouched (AuditKeeper.record_audit_log (recorded_log ctx msg id) s)
        (AuditKeeper.increment_counter id >> emit (recorded_event id msg)) s
        (record_audit_log-Untouched (recorded_log ctx msg id) s)
        (λ t.
          continue-Untouched (AuditKeeper.increment_counter id t) (emit (recorded_event id msg)) t
            (increment_counter-Untouched id t) (λ u. record { params = refl; counts = refl }))

  record_audit-Counted :
      (ctx : Context) (msg : MsgRecordAudit) (s : State)
      → 0 < limit s
      → limit s < 2 ^ 32
      → Ends (λ _. Counted msg.creator s) (Tried msg.creator s) (record_audit ctx msg s)
  unfolding record_audit
  record_audit-Counted ctx msg s pos fits =
      let p = AuditKeeper.get_params s in
      elim (Bool-cases (is_allowed_auditor s msg.creator)) [
        | inr other ↦ rw other (inl (Untouched-refl s))
        | inl may ↦
            elim (Bool-cases (ltb 0 p.max_data_size && exceeds msg.content p.max_data_size)) [
              | inl large ↦ rw (may, large) (inl (Untouched-refl s))
              | inr small ↦
                  rw (may, small)
                    (Ends-bind (λ _. Counted msg.creator s) (Untouched s)
                      (λ _. Counted msg.creator s) (Tried msg.creator s)
                      (AuditKeeper.check_and_incr_audit_count msg.creator s) _
                      (check_and_incr_audit_count-Counted msg.creator s pos fits) (λ t u. inl u)
                      (λ _ t c.
                        let r = append ctx msg (AuditKeeper.get_next_id t) t in
                        Ends-weaken (λ _. Counted msg.creator s) (λ _. Counted msg.creator s)
                          (Counted msg.creator s) (Tried msg.creator s) r (λ _ _ x. x)
                          (λ _ x. inr x)
                          (Ends-of_store (Counted msg.creator s) r (
                            Counted-then msg.creator s t r.1 c
                              (append-Untouched ctx msg (AuditKeeper.get_next_id t) t)))))
            ]
      ]
