-- ===== src/Audit/Written.antt =====
-- What a recording of chain/x/audit/keeper/msg_server.go that succeeds writes: the log and its three
-- index entries, under the number after the one that the sequence is at.
use energychain_node.Prelude.{
  subst, ℕ, suc, ◌^◌, ◌<◌, ◌≡◌, refl, sym, ap, ◌∙◌, true, ◌&&◌, some, inl, inr, arith, Bytes,
  exceeds, ltb, leb, eqb, Bool-cases, Option-cases,
}
use energychain_node.Outcome.{Outcome, Exec, ok, continue_inv, ◌>>◌}
use energychain_node.Sdk.Context.{Context}
use energychain_node.Audit.Types.{AuditLog, MsgRecordAudit}
use energychain_node.Audit.State.{Keeper, State, Error}
use energychain_node.Audit.Keeper as AuditKeeper
use energychain_node.Audit.Keeper.{timestamp_to_key}
use energychain_node.Audit.MsgServer.{
  emit, recorded_log, recorded_event, is_allowed_auditor, record_audit,
}

module _ ⦃k : Keeper⦄ where
  -- The log `l` and its index entries are written, and the parameters are as before.
  pub record Written (l : AuditLog) (s s' : State) : Type 0 where
    pub fits_log : k.logs.encodes l.id l ≡ true
    pub fits_actor : k.by_actor.encodes (l.actor, l.id) tt ≡ true
    pub fits_event_type : k.by_event_type.encodes (l.event_type, l.id) tt ≡ true
    pub fits_time : k.by_time.encodes (timestamp_to_key l.timestamp, l.id) tt ≡ true
    pub logs : s'.logs ≡ k.logs.put s.logs l.id l
    pub by_actor : s'.by_actor ≡ k.by_actor.put s.by_actor (l.actor, l.id) tt
    pub by_event_type :
        s'.by_event_type ≡ k.by_event_type.put s.by_event_type (l.event_type, l.id) tt
    pub by_time : s'.by_time ≡ k.by_time.put s.by_time (timestamp_to_key l.timestamp, l.id) tt
    pub params : s'.params ≡ s.params

  pub record_audit_log-Written :
      (l : AuditLog) (s : State)
      → (AuditKeeper.record_audit_log l s).0 ≡ ok tt
      → Written l s (AuditKeeper.record_audit_log l s).1
  unfolding AuditKeeper.record_audit_log
  record_audit_log-Written l s done = elim (Bool-cases (k.logs.encodes l.id l)) [
    | inr bad ↦ absurd (cc (rw bad at done))
    | inl fits ↦ elim (Bool-cases (k.by_actor.encodes (l.actor, l.id) tt)) [
      | inr bad ↦ absurd (cc (rw (fits, bad) at done))
      | inl a ↦ elim (Bool-cases (k.by_event_type.encodes (l.event_type, l.id) tt)) [
        | inr bad ↦ absurd (cc (rw (fits, a, bad) at done))
        | inl b ↦ elim (Bool-cases (k.by_time.encodes (timestamp_to_key l.timestamp, l.id) tt)) [
          | inr bad ↦ absurd (cc (rw (fits, a, b, bad) at done))
          | inl c ↦
              rw (fits, a, b, c)
                (record {
                  fits_log = fits;
                  fits_actor = a;
                  fits_event_type = b;
                  fits_time = c;
                  logs = refl;
                  by_actor = refl;
                  by_event_type = refl;
                  by_time = refl;
                  params = refl;
                })
        ]
      ]
    ]
  ]

  -- The collections that `Written` speaks of are as before.
  pub record Aside (s s' : State) : Type 0 where
    pub logs : s'.logs ≡ s.logs
    pub by_actor : s'.by_actor ≡ s.by_actor
    pub by_event_type : s'.by_event_type ≡ s.by_event_type
    pub by_time : s'.by_time ≡ s.by_time
    pub params : s'.params ≡ s.params

  Written-between :
      (l : AuditLog) (s t u v : State) → Aside s t → Written l t u → Aside u v → Written l s v
  Written-between l s t u v a w b = record {
    fits_log = w.fits_log;
    fits_actor = w.fits_actor;
    fits_event_type = w.fits_event_type;
    fits_time = w.fits_time;
    logs = b.logs ∙ w.logs ∙ ap (λ m. k.logs.put m l.id l) a.logs;
    by_actor = b.by_actor ∙ w.by_actor ∙ ap (λ m. k.by_actor.put m (l.actor, l.id) tt) a.by_actor;
    by_event_type =
        b.by_event_type
        ∙ w.by_event_type
        ∙ ap (λ m. k.by_event_type.put m (l.event_type, l.id) tt) a.by_event_type;
    by_time =
        b.by_time
        ∙ w.by_time
        ∙ ap (λ m. k.by_time.put m (timestamp_to_key l.timestamp, l.id) tt) a.by_time;
    params = b.params ∙ w.params ∙ a.params;
  }

  pub counter_set :
      (id : ℕ) (s : State)
      → (AuditKeeper.increment_counter id s).0 ≡ ok tt
      → (k.id_sequence.peek (AuditKeeper.increment_counter id s).1.id_sequence ≡ some id)
        × Aside s (AuditKeeper.increment_counter id s).1
  unfolding AuditKeeper.increment_counter
  counter_set id s done = elim (Option-cases (k.id_sequence.set s.id_sequence id)) [
    | inl bad ↦ absurd (cc (rw (AuditKeeper.increment_counter, bad) at done))
    | inr (q, set) ↦
        rw (AuditKeeper.increment_counter, set)
          (
            k.id_sequence.peek-set s.id_sequence id q set,
            record {
              logs = refl;
              by_actor = refl;
              by_event_type = refl;
              by_time = refl;
              params = refl;
            },
          )
  ]

  counted :
      (a : Bytes) (s : State)
      → let t = (AuditKeeper.check_and_incr_audit_count a s).1 in
        Aside s t × (t.id_sequence ≡ s.id_sequence)
  unfolding AuditKeeper.check_and_incr_audit_count
  counted a s =
      let same : Aside s s = record {
        logs = refl;
        by_actor = refl;
        by_event_type = refl;
        by_time = refl;
        params = refl;
      } in
      elim (Bool-cases (eqb (AuditKeeper.get_params s).max_audits_per_block_per_creator 0)) [
        | inl off ↦ rw off (same, refl)
        | inr on ↦
            elim (Bool-cases (
              leb (AuditKeeper.get_params s).max_audits_per_block_per_creator (
                AuditKeeper.stored_audits
                  (k.transient.get s.audit_counts (AuditKeeper.audit_count_key a))))) [
                    | inl full ↦ rw (on, full) (same, refl)
                    | inr room ↦
                        rw (on, room)
                          (
                            record {
                              logs = refl;
                              by_actor = refl;
                              by_event_type = refl;
                              by_time = refl;
                              params = refl;
                            },
                            refl,
                          )
                  ]
      ]

  next_id :
      (n : ℕ) (s : State)
      → k.id_sequence.peek s.id_sequence ≡ some n
      → suc n < 2 ^ 64
      → AuditKeeper.get_next_id s ≡ suc n
  unfolding AuditKeeper.get_next_id
  next_id n s h room = rw (AuditKeeper.get_next_id, h) (omega arith)

  abbrev append : Context → MsgRecordAudit → ℕ → Exec Error State (Unit {0})
  append ctx msg id = do
    AuditKeeper.record_audit_log (recorded_log ctx msg id)
    AuditKeeper.increment_counter id
    emit (recorded_event id msg)

  -- A recording that succeeds on a sequence at `n` writes its log as number `n + 1`.
  pub record Recorded (ctx : Context) (msg : MsgRecordAudit) (n : ℕ) (s s' : State) : Type 0 where
    pub sequence : k.id_sequence.peek s'.id_sequence ≡ some (suc n)
    pub written : Written (recorded_log ctx msg (suc n)) s s'

  append-Recorded :
      (ctx : Context) (msg : MsgRecordAudit) (n : ℕ) (s t : State)
      → Aside s t
      → (append ctx msg (suc n) t).0 ≡ ok tt
      → Recorded ctx msg n s (append ctx msg (suc n) t).1
  append-Recorded ctx msg n s t same done =
      let l = recorded_log ctx msg (suc n) in
      let u = (AuditKeeper.record_audit_log l t).1 in
      let (_, first, rest, runs) = continue_inv (AuditKeeper.record_audit_log l t) _ tt done in
      let (_, second, _, runs') =
        continue_inv (AuditKeeper.increment_counter (suc n) u) _ tt rest in
      let (peek, aside) = counter_set (suc n) u second in
      subst (λ (r : Outcome Error (Unit {0}) × State). Recorded ctx msg n s r.1)
        (sym (runs ∙ runs'))
        (record {
          sequence = peek;
          written = Written-between l s t u _ same (record_audit_log-Written l t first) (record {
            logs = aside.logs;
            by_actor = aside.by_actor;
            by_event_type = aside.by_event_type;
            by_time = aside.by_time;
            params = aside.params;
          });
        })

  pub record_audit-Recorded :
      (ctx : Context) (msg : MsgRecordAudit) (n : ℕ) (s : State)
      → k.id_sequence.peek s.id_sequence ≡ some n
      → suc n < 2 ^ 64
      → (record_audit ctx msg s).0 ≡ ok tt
      → Recorded ctx msg n s (record_audit ctx msg s).1
  unfolding record_audit
  record_audit-Recorded ctx msg n s h room done =
      let p = AuditKeeper.get_params s in
      let c = AuditKeeper.check_and_incr_audit_count msg.creator s in
      let (aside, same_sequence) = counted msg.creator s in
      elim (Bool-cases (is_allowed_auditor s msg.creator)) [
        | inr other ↦ absurd (cc (rw other at done))
        | inl may ↦
            elim (Bool-cases (ltb 0 p.max_data_size && exceeds msg.content p.max_data_size)) [
              | inl large ↦ absurd (cc (rw (may, large) at done))
              | inr small ↦
                  let (_, _, rest, same) = continue_inv c _ tt (rw (may, small) at done) in
                  let id_is : AuditKeeper.get_next_id c.1 ≡ suc n =
                    next_id n c.1 (ap k.id_sequence.peek same_sequence ∙ h) room in
                  let x = append-Recorded ctx msg n s c.1 aside (rw id_is at rest) in
                  rw (may, small)
                    (subst (λ (r : Outcome Error (Unit {0}) × State). Recorded ctx msg n s r.1)
                      (sym same) (rw id_is x))
            ]
      ]
