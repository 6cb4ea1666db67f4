-- ===== src/Audit/Append.antt =====
-- A recorded audit is appended to the log of chain/x/audit/keeper: no earlier log is touched.
use energychain_node.Prelude.{
  ℕ, suc, ◌^◌, ◌≤◌, ◌<◌, ◌≡◌, ◌≢◌, refl, ap, ◌∙◌, true, some, arith, ◌==◌, eq_iff, ℕ_eq,
  if◌then◌else◌,
}
use energychain_node.Outcome.{ok}
use energychain_node.Sdk.Store.{found}
use energychain_node.Sdk.Laws.{get-put}
use energychain_node.Sdk.Context.{Context}
use energychain_node.Audit.Types.{AuditLog, MsgRecordAudit}
use energychain_node.Audit.State.{Keeper, State}
use energychain_node.Audit.MsgServer.{recorded_log, record_audit}
use energychain_node.Audit.Written.{record_audit-Recorded}

module _ ⦃k : Keeper⦄ where
  -- The sequence is at `n`, and no log has a higher identifier.
  pub record IsNumbered (n : ℕ) (s : State) : Type 0 where
    pub sequence : k.id_sequence.peek s.id_sequence ≡ some n
    pub bounded : (i : ℕ) (l : AuditLog) → k.logs.get s.logs i ≡ found l → i ≤ n

  -- One log is added, under the next identifier, and all others are as before.
  pub record Appended (n : ℕ) (l : AuditLog) (s s' : State) : Type 0 where
    pub numbered : IsNumbered (suc n) s'
    pub there : k.logs.get s'.logs (suc n) ≡ found l
    pub others : (i : ℕ) → suc n ≢ i → k.logs.get s'.logs i ≡ k.logs.get s.logs i

  put_log :
      (n : ℕ) (s : State) (l : AuditLog) (s' : State)
      → IsNumbered n s
      → l.id ≡ suc n
      → k.logs.encodes l.id l ≡ true
      → s'.logs ≡ k.logs.put s.logs l.id l
      → k.id_sequence.peek s'.id_sequence ≡ some l.id
      → Appended n l s s'
  put_log n s l s' h e fits put peek =
      let gets_it : (i : ℕ)
          → k.logs.get s'.logs i ≡ (if l.id == i then found l else k.logs.get s.logs i) =
        λ i. rw put (get-put k.logs s.logs l.id l i fits) in
      record {
        numbered = record {
          sequence = peek ∙ ap some e;
          bounded = λ i m g. ground (arith, gets_it i, h.bounded i m, eq_iff l.id i, e);
        };
        there = ground (arith, gets_it (suc n), eq_iff l.id (suc n), e);
        others = λ i ne. ground (arith, gets_it i, eq_iff l.id i, e, ne);
      }

  -- From a sequence at `n`, with no log above it and an identifier left, a recording that succeeds
  -- adds its log under `n + 1`, leaves every other log as it was, and moves the sequence to `n + 1`.
  pub record_audit-Appended :
      (ctx : Context) (msg : MsgRecordAudit) (n : ℕ) (s : State)
      → IsNumbered n s
      → suc n < 2 ^ 64
      → (record_audit ctx msg s).0 ≡ ok tt
      → Appended n (recorded_log ctx msg (suc n)) s (record_audit ctx msg s).1
  record_audit-Appended ctx msg n s h room done =
      let x = record_audit-Recorded ctx msg n s h.sequence room done in
      put_log n s (recorded_log ctx msg (suc n)) (record_audit ctx msg s).1 h refl
        x.written.fits_log x.written.logs x.sequence
